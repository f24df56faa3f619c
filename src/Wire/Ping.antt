-- ===== src/Wire/Ping.antt =====
-- `struct ping_contract` of xdp/newip_router/newip.h as offsets of its fields, whose `timestamp` is aligned to eight bytes.
use new_ip_linux.Common.{ℕ}

abbrev pub contract_type : ℕ
contract_type = 0

abbrev pub code : ℕ
code = 2

abbrev pub hops : ℕ
hops = 4

abbrev pub size : ℕ
size = 16
