-- ===== src/Wire/ShippingSpec.antt =====
-- `struct shipping_spec` of xdp/newip_router/newip.h as offsets of its fields; the addresses follow it.
use new_ip_linux.Common.{ℕ}

abbrev pub src_addr_type : ℕ
src_addr_type = 0

abbrev pub dst_addr_type : ℕ
dst_addr_type = 1

abbrev pub size : ℕ
size = 3
