-- ===== src/Lbf/Store/Access.antt =====
-- Reads and writes of the fields that lbf/src/linux/sch_lbf.c uses, and its calls into the kernel.
use new_ip_linux.Common.{
  refl, false, ◌==◌, ◌≡◌, ◌≢◌, arith, ℕ, Option, none, some, ◌∷◌, ◌≤◌, leb, if◌then◌else◌,
}
use new_ip_linux.Lbf.Store.{
  Ptr, null, Hnode, Pnode, HnodeHead, Skb, Sched, Call, Kernel, State, ok, fault, At, State, null,
  Cmd, pure, ◌>>=◌, write, read,
}

unfoldable pub load_hnode : Ptr → Cmd Hnode
load_hnode p s = elim (read s.hnodes p) [ none ↦ fault | some h ↦ ok h s ]

unfoldable pub put_hnode : Ptr → Option Hnode → Cmd (Unit {0})
put_hnode p h s = ok tt (record s { hnodes = write s.hnodes p h })

unfoldable pub update_hnode : Ptr → (Hnode → Hnode) → Cmd (Unit {0})
unfolding load_hnode put_hnode
update_hnode p f = do h ← load_hnode p; put_hnode p (some (f h))

unfoldable pub load_pnode : Ptr → Cmd Pnode
load_pnode p s = elim (read s.pnodes p) [ none ↦ fault | some n ↦ ok n s ]

unfoldable pub put_pnode : Ptr → Option Pnode → Cmd (Unit {0})
put_pnode p n s = ok tt (record s { pnodes = write s.pnodes p n })

unfoldable pub update_pnode : Ptr → (Pnode → Pnode) → Cmd (Unit {0})
unfolding load_pnode put_pnode
update_pnode p f = do n ← load_pnode p; put_pnode p (some (f n))

unfoldable pub load_skb : Ptr → Cmd Skb
load_skb p s = elim (read s.skbs p) [ none ↦ fault | some b ↦ ok b s ]

-- An access to the first `end` bytes of a packet from the network header on.
unfoldable pub in_packet : Skb → (end : ℕ) → Cmd (Unit {0})
in_packet b end s = if leb end b.len then ok tt s else fault

unfoldable pub put_skb : Ptr → Option Skb → Cmd (Unit {0})
put_skb p b s = ok tt (record s { skbs = write s.skbs p b })

unfoldable pub update_skb : Ptr → (Skb → Skb) → Cmd (Unit {0})
unfolding load_skb put_skb
update_skb p f = do b ← load_skb p; put_skb p (some (f b))

-- `kfree`: the object must be live.
unfoldable pub free_hnode : Ptr → Cmd (Unit {0})
unfolding load_hnode put_hnode
free_hnode p = do _ ← load_hnode p; put_hnode p none

unfoldable pub free_pnode : Ptr → Cmd (Unit {0})
unfolding load_pnode put_pnode
free_pnode p = do _ ← load_pnode p; put_pnode p none

unfoldable pub get_sched : Cmd Sched
get_sched s = ok s.sched s

unfoldable pub update_sched : (Sched → Sched) → Cmd (Unit {0})
update_sched f s = ok tt (record s { sched = f s.sched })

-- `*list_ptr`, read through.
unfoldable pub load_list : Cmd HnodeHead
load_list s = elim s.sched.hnode_list [ none ↦ fault | some l ↦ ok l s ]

unfoldable pub store_list : HnodeHead → Cmd (Unit {0})
store_list l s = ok tt (record s { sched = record (s.sched) { hnode_list = some l } })

unfoldable pub call : Call → Cmd (Unit {0})
call c s = ok tt (record s { calls = c ∷ s.calls })

module _ (kernel : Kernel) where
  unfoldable pub psched_get_time : Cmd ℕ
  psched_get_time s =
      ok (kernel.get_time s.calls) (record s { calls = Call.psched_get_time ∷ s.calls })

  -- `PSCHED_TICKS2NS(psched_get_time())`
  unfoldable pub time_ns : Cmd ℕ
  unfolding psched_get_time
  time_ns = do t ← psched_get_time; pure (kernel.ticks2ns t)

  unfoldable pub kcalloc : Cmd Ptr
  kcalloc s = ok (kernel.alloc s.calls) (record s { calls = Call.kcalloc ∷ s.calls })

pub not_null : {A : Type 0} {m : Ptr → Option A} {p : Ptr} {a : A} → At m p a → (p == null) ≡ false
not_null e = ground arith

pub read-At : {A : Type 0} {m : Ptr → Option A} {p : Ptr} {a : A} → At m p a → read m p ≡ some a
unfolding read
read-At e = rw (not_null e, e.holds)

pub At-write :
    {A : Type 0} (m : Ptr → Option A) (p : Ptr) (a : A) → p ≢ null → At (write m p (some a)) p a
unfolding write
At-write m p a ne = ground arith

pub At-write_ne :
    {A : Type 0} {m : Ptr → Option A} {p : Ptr} {a : A} (q : Ptr) (c : Option A)
    → At m p a
    → p ≢ q
    → At (write m q c) p a
unfolding write
At-write_ne q c e ne = ground arith

module _ (s : State) {p : Ptr} {h : Hnode} (e : At s.hnodes p h) where
  pub load_hnode-At : load_hnode p s ≡ ok h s
  unfolding load_hnode
  load_hnode-At = ground (arith, read-At e)

  pub update_hnode-At :
      (f : Hnode → Hnode)
      → update_hnode p f s ≡ ok tt (record s { hnodes = write s.hnodes p (some (f h)) })
  unfolding update_hnode
  update_hnode-At f = ground (arith, read-At e)

module _ (s : State) {p : Ptr} {n : Pnode} (e : At s.pnodes p n) where
  pub load_pnode-At : load_pnode p s ≡ ok n s
  unfolding load_pnode
  load_pnode-At = ground (arith, read-At e)

  pub update_pnode-At :
      (f : Pnode → Pnode)
      → update_pnode p f s ≡ ok tt (record s { pnodes = write s.pnodes p (some (f n)) })
  unfolding update_pnode
  update_pnode-At f = ground (arith, read-At e)

  pub free_pnode-At : free_pnode p s ≡ ok tt (record s { pnodes = write s.pnodes p none })
  unfolding free_pnode
  free_pnode-At = ground (arith, read-At e)

pub in_packet-ok : (b : Skb) (end : ℕ) (s : State) → end ≤ b.len → in_packet b end s ≡ ok tt s
unfolding in_packet
in_packet-ok b end s h = ground arith

module _ (s : State) {p : Ptr} {b : Skb} (e : At s.skbs p b) where
  pub load_skb-At : load_skb p s ≡ ok b s
  unfolding load_skb
  load_skb-At = ground (arith, read-At e)

  pub put_skb-eq : (c : Option Skb) → put_skb p c s ≡ ok tt (record s { skbs = write s.skbs p c })
  unfolding put_skb
  put_skb-eq c = refl

  pub update_skb-At :
      (f : Skb → Skb) → update_skb p f s ≡ ok tt (record s { skbs = write s.skbs p (some (f b)) })
  unfolding update_skb
  update_skb-At f = ground (arith, read-At e)
