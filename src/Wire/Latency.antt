-- ===== src/Wire/Latency.antt =====
-- `struct latency_based_forwarding` of xdp/newip_router/newip.h as offsets of its fields.
use new_ip_linux.Common.{ℕ}

abbrev pub contract_type : ℕ
contract_type = 0

abbrev pub min_delay : ℕ
min_delay = 2

abbrev pub max_delay : ℕ
max_delay = 4

abbrev pub experienced_delay : ℕ
experienced_delay = 6

abbrev pub fib_todelay : ℕ
fib_todelay = 8

abbrev pub fib_tohops : ℕ
fib_tohops = 10

abbrev pub size : ℕ
size = 12
