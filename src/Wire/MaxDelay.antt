-- ===== src/Wire/MaxDelay.antt =====
-- `struct max_delay_forwarding` of xdp/newip_router/newip.h as offsets of its fields.
use new_ip_linux.Common.{ℕ}

abbrev pub contract_type : ℕ
contract_type = 0

abbrev pub max_allowed_delay : ℕ
max_allowed_delay = 2

abbrev pub delay_exp : ℕ
delay_exp = 4

abbrev pub size : ℕ
size = 6
