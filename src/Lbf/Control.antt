-- ===== src/Lbf/Control.antt =====
-- The control plane of lbf/src/linux/sch_lbf.c: the operations by which a discipline is set up,
-- changed, reset, destroyed and reported.
pub mod Limit
use new_ip_linux.Common.{ℕ, ◌/◌, Bool, true, false, Option, none, some, ◌∷◌, if◌then◌else◌}
use new_ip_linux.Common.Int.{ℤ, pos, negsuc}
use new_ip_linux.Wire.{u32}
use new_ip_linux.Lbf.Store.{null, Sched, Call, Kernel, ok, Cmd, pure, ◌>>=◌, ◌>>◌}
use new_ip_linux.Lbf.Store.Access.{update_sched, call}

-- The part of the kernel's netlink interface that the code calls. A message `Msg` is written and an
-- attribute `Attr` is read; `none` is a message without room. `parse_nested` gets the highest number
-- of an attribute and returns the code of `nla_parse_nested`, with the policy of the discipline, and
-- the values of the attributes that are there by their numbers.
pub record Netlink (Msg Attr : Type 0) : Type 0 where
  pub nest_start : Msg → Option Msg
  pub put_u32 : (attrtype : ℕ) → (value : ℕ) → Msg → Option Msg
  pub nest_end : Msg → ℤ × Msg
  pub nest_cancel : Msg → Msg
  pub parse_nested : (maxtype : ℕ) → Attr → ℤ × (ℕ → Option ℕ)

-- `TCA_LBF_LIMIT` and `TCA_LBF_MAX` of lbf/src/pkt_sched.h
abbrev pub tca_lbf_limit : ℕ
tca_lbf_limit = 1

abbrev pub tca_lbf_max : ℕ
tca_lbf_max = 1

-- `-EINVAL` and `-EMSGSIZE`
abbrev pub einval : ℤ
einval = negsuc 21

abbrev pub emsgsize : ℤ
emsgsize = negsuc 89

abbrev pub is_negative : ℤ → Bool
is_negative (pos n) = false
is_negative (negsuc n) = true

-- `struct tc_lbf_xstats`
pub record Xstats : Type 0 where
  pub delay : ℕ
  pub overlimit : ℕ

-- `sch->limit = limit`
unfoldable pub set_limit : ℕ → Cmd (Unit {0})
set_limit limit s = ok tt (record s { limit = limit })

module _ {Msg Attr : Type 0} (nl : Netlink Msg Attr) where
  -- The attributes of a change, when they have been parsed.
  unfoldable pub apply_options : ℤ × (ℕ → Option ℕ) → Cmd ℤ
  unfolding set_limit
  apply_options (err, tb) =
      if is_negative err
      then pure err
      else elim (tb tca_lbf_limit) [ none ↦ pure (pos 0) | some n ↦ (do set_limit n; pure (pos 0)) ]

  unfoldable pub change : Option Attr → Cmd ℤ
  change none = pure einval
  change (some opt) = apply_options (nl.parse_nested tca_lbf_max opt)

  -- The private data is zero when it is allocated; the kernel's constant PSCHED_PASTPERFECT is a
  -- parameter.
  unfoldable pub init : (pastperfect : ℕ) → Option Attr → Cmd ℤ
  unfolding set_limit update_sched call
  init pastperfect opt = do
    set_limit 1000
    update_sched
        (λ q. record q { hnode_list = none; next_pnode = null; delay = pastperfect; overlimit = 0 })
    call Call.watchdog_init
    change opt

  -- The end of the report: the code, and the message that is left.
  unfoldable pub finish_dump : (opts : Msg) → Option Msg → ℤ × Msg
  finish_dump opts none = (emsgsize, nl.nest_cancel opts)
  finish_dump opts (some full) = nl.nest_end full

  -- The report, when its options have been started.
  unfoldable pub fill_dump : (limit : ℕ) (skb : Msg) → Option Msg → ℤ × Msg
  fill_dump limit skb none = (emsgsize, skb)
  fill_dump limit skb (some opts) = finish_dump opts (nl.put_u32 tca_lbf_limit limit opts)

  unfoldable pub dump : (limit : ℕ) → Msg → ℤ × Msg
  dump limit skb = fill_dump limit skb (nl.nest_start skb)

-- Whether the watchdog is that of this discipline is asked of the kernel.
unfoldable pub cancel_watchdog : Kernel → Cmd (Unit {0})
unfolding call
cancel_watchdog kernel s =
    (if kernel.watchdog_of_sch s.calls then call Call.watchdog_cancel else pure tt) s

unfoldable pub reset : Kernel → Cmd (Unit {0})
unfolding call
reset kernel = do cancel_watchdog kernel; call Call.reset_queue

unfoldable pub destroy : Kernel → Cmd (Unit {0})
destroy kernel = cancel_watchdog kernel

-- The statistics that `lbf_dump_stats` hands to `gnet_stats_copy_app`. The delay, which `lbf_dequeue`
-- has stored in microseconds for a packet of the hnodes, is taken for ticks.
unfoldable pub xstats : Kernel → Sched → Xstats
xstats kernel q = record { delay = u32 (kernel.ticks2ns q.delay / 1000); overlimit = q.overlimit }
