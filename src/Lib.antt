-- ===== src/Lib.antt =====
-- A model of the C code of NewIP-Linux, which forwards New IP packets with delay contracts, and
-- theorems about it.
--
-- A New IP packet has a header of offsets, a shipping specification with the types of its addresses,
-- the addresses, and at most one contract: ping, max-delay forwarding or latency-based forwarding.
-- A router takes it through three programs. `xdp_router_func` of xdp/newip_router/xdp_prog_kern.c
-- looks at the frame as it arrives, finds the interface to send it out of, by a lookup of the kernel
-- or in a static map, leaves it in the frame's metadata and counts the frame. `tc_router_func` of
-- xdp/newip_router/tc_prog_kern.c redirects the frame to that interface. The queue discipline of
-- lbf/src/linux/sch_lbf.c holds a packet with a latency contract back until it may leave, and drops
-- packets that are too late. Programs in user space attach the XDP program to a device, pin its
-- maps, fill the static map and read the counters: each reads its options and calls libbpf.
--
-- Files:
--   Common      shared names: the native numbers, tests, lists, integers, strings and bits.
--   Wire        xdp/newip_router/newip.h: a packet is a function from offsets to bytes, a structure
--               is the offsets of its fields; loads, stores and the exchange of bytes of a
--               little-endian host.
--   Router      `xdp_router_func`, with `xdp_stats_record_action` of xdp/common/xdp_stats_kern.h.
--               `destination`, `process_contract` and `apply_fib` are its blocks, `xdp_router` is
--               the whole. A frame has a length, its metadata the room that the kernel made, and an
--               access outside either is `none`. The kernel's helpers and maps are the record
--               `Helpers`.
--   Tc          `tc_router_func` as `tc_router`; Tc/Route has the two programs together.
--   Lbf/Delay   `lbf_get_min_delay` and `lbf_get_max_delay`.
--   Lbf/Store   the structures of sch_lbf.c. A state has one map for each of them, from addresses to
--               live objects; a packet has a length. A command returns a value and a state, faults at
--               NULL, at an object that is not live or behind the end of a packet, or is out of fuel. What the kernel answers is the record `Kernel`,
--               by the calls made so far, and its effects are the list of calls.
--   Lbf/Queue   `pnode_queue_add` and `remove_pnode`: the packets of one range of budgets, by the
--               time from which they may leave.
--   Lbf/Ranges  `create_hnode` and `lbf_get_hnode`: the ranges of budgets. (The list of a range is
--               an `lbf_hnode`, a packet in it an `lbf_pnode`.)
--   Lbf/Search  `search_next_pnode` and `search_now_pnode`.
--   Lbf/Stock   the whole store of the discipline as a list: of each hnode its address, its contents
--               and the packets of its queue, in the order of the list. What is the invariant of the
--               discipline, and how it changes, is said in terms of it.
--   Lbf/Enqueue `lbf_enqueue`; its branch for latency contracts is `enqueue_latency` and `admit`.
--   Lbf/Dequeue `lbf_dequeue`; its blocks are `take_next`, `take_now`, `watch_next`, `stamp` and
--               `dequeue_plain`.
--   Lbf/First   `lbf_enqueue` and `lbf_dequeue` together, for the first packet.
--   Lbf/Control `lbf_change`, `lbf_init`, `lbf_reset`, `lbf_destroy`, `lbf_dump`, `lbf_dump_stats`; the
--               kernel's netlink interface is the record `Netlink`.
--   Parsing     the header cursor of xdp/common/parsing_helpers.h, with a read past the end of the
--               data as `none`. The loop over VLAN tags has as many rounds as the source unrolls.
--   Rewrite     xdp/common/rewrite_helpers.h: `vlan_tag_pop`, `vlan_tag_push` and the exchanges of
--               addresses, with `bpf_xdp_adjust_head` as a parameter.
--   Iproute     lbf/src/iproute2/q_lbf.c: `lbf_parse_opt`, `lbf_print_opt` and `lbf_print_xstats`.
--   Params      xdp/common/common_params.c: `struct config`, the options that `parse_cmdline_args`
--               reads, the table of options and the help.
--   Host        what the programs in user space call of libbpf and the system, as records over the
--               states W of the system.
--   Attach      `xdp_link_attach` and `xdp_link_detach` of xdp/common/common_user_bpf_xdp.c. The kernel
--               has a hook for each device and each of the modes generic, native and offloaded, does
--               not take a generic and a native program at once, and the flags say which is meant.
--   Loading     of the same file: `load_bpf_object_file`, `reuse_maps`, `load_bpf_and_xdp_attach`.
--   Pinned      of the same file: `check_map_fd_info`, `open_bpf_map_file`, `action2str`.
--   Xattr       `bpf_prog_load_xattr_maps` of xdp/common/common_libbpf.c.
--   Loader      xdp/loader/xdp_loader.c: `main` and `pin_maps_in_bpf_object`.
--   Redirect    xdp/newip_router/xdp_prog_user.c: the entries of the static map of the XDP router;
--               a name in which `strlen` finds no zero is read behind its buffer, the end `beyond`.
--   Stats       xdp/loader/xdp_stats.c: the counters that the XDP router keeps, summed and reported.
-- Modules called Tests have concrete runs.
--
-- Bounds: integers keep the wrap-around of their C types where the code can reach it. The loops over
-- linked lists take fuel, one unit for each node and one for the end; the theorems ask for more fuel
-- than there are nodes, and then prove that the loop ends. The loop over the entries of the static
-- map takes one unit for each entry and one for the end, and the loop of the statistics one for each
-- round, of which there may be any number.
--
-- Not modelled: the log and error messages and the layout of printed numbers; the 16 bits to which the
-- kernel may cut `qlen`; a failure of `snprintf`, which two strings do not cause; concurrency, since
-- the kernel calls the discipline with its lock held and an XDP program runs to its end; the
-- vendored libbpf and kernel headers, whose calls are parameters; and the Python code that sends and
-- receives packets.
pub mod Attach
pub mod Common
pub mod Host
pub mod Iproute
pub mod Lbf
pub mod Loader
pub mod Loading
pub mod Params
pub mod Parsing
pub mod Pinned
pub mod Redirect
pub mod Rewrite
pub mod Router
pub mod Stats
pub mod Tc
pub mod Wire
pub mod Xattr
