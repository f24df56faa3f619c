-- ===== src/Wire/NewipOffset.antt =====
-- `struct newip_offset` of xdp/newip_router/newip.h as offsets of its fields.
use new_ip_linux.Common.{ℕ}

abbrev pub shipping_offset : ℕ
shipping_offset = 0

abbrev pub contract_offset : ℕ
contract_offset = 1

abbrev pub payload_offset : ℕ
payload_offset = 2

abbrev pub size : ℕ
size = 3
