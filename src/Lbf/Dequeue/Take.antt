-- ===== src/Lbf/Dequeue/Take.antt =====
-- `remove_pnode` in `lbf_dequeue` of lbf/src/linux/sch_lbf.c, on the first packet of any queue.
use new_ip_linux.Common.{◌≡◌, none, some, ◌∷◌, arith}
use mathlib.Core.Path.{subst}
use new_ip_linux.Lbf.Store.{Ptr, null, Hnode, State, write}
use new_ip_linux.Lbf.Store.Access.{At-write, update_pnode-At}
use new_ip_linux.Lbf.Store.Returns.{Returns, mono}
use new_ip_linux.Lbf.Queue.Chain.{Packet, node, Pnodes, Points, Chain, agree}
use new_ip_linux.Lbf.Queue.Insert.{WithQueue}
use new_ip_linux.Lbf.Queue.Remove.{remove_pnode-first}
use new_ip_linux.Lbf.Ranges.Line.{Hnodes, linked}
use new_ip_linux.Lbf.Stock.{Stock, head_of, holding, Stocked, Chain-head_of}
use new_ip_linux.Lbf.Stock.Change.{with_packets, Stocked-with_packets}
use new_ip_linux.Lbf.Stock.Heads.{Leads, without, Leads-Located, Chain-cons}
use new_ip_linux.Lbf.Dequeue.{take_pnode}

-- The pnode at `r` is freed, and the hnodes from `p` on are as before but without its packet.
abbrev pub Taken : (s : State) (p : Ptr) (st : Stock) (r : Ptr) → Unit {0} → State → Type 0
Taken s p st r _ s' =
    (g : Pnodes) × (hs : Hnodes) × (s' ≡ record s { pnodes = g; hnodes = hs })
    × Stocked hs g p (without r st)
    × (g r ≡ none)

-- The first packet of a queue, with its `realpkt` set to NULL before.
pub take_pnode-Taken :
    (s : State) (p : Ptr) (st : Stock) (r : Ptr) (v : Packet)
    → Stocked s.hnodes s.pnodes p st
    → Leads r v st
    → Returns (Taken s p st r) (take_pnode r s)
unfolding take_pnode write
take_pnode-Taken s p st r v stocked leads =
    let f = Leads-Located s.hnodes s.pnodes r v p st stocked leads in
    let (q, e, out, c) = Chain-cons f.chain in
    let a : Ptr = f.x.at in
    let h : Hnode = linked (holding (f.x.hnode) ((r, v) ∷ f.xs)) f.next in
    let w : Packet = record v { realpkt = null } in
    let m : Pnodes = write s.pnodes r (some (node w q a)) in
    let s1 : State = record s { pnodes = m } in
    let pt : Points m r w q a = At-write s.pnodes r _ e.ne_null in
    let c1 : Chain m null q f.xs = agree (ground arith) c in
    rw (update_pnode-At s e (λ n. record n { realpkt = null })) (
      mono (remove_pnode-first s1 h f.at f.unlinked pt out c1)
        (λ _ s' (g, hs, q', e', chain, freed, same, wq).
          let eq : q' ≡ head_of f.xs = Chain-head_of chain in
          let stocked' : Stocked hs g p (with_packets a f.xs st) =
            Stocked-with_packets a f.xs ((r, v) ∷ f.xs) (λ b i. ground (arith, i)) f.at
              (subst (λ b. WithQueue s.hnodes hs a h b) eq wq) (λ b o. ground (arith, same b, o))
              (subst (λ b. Chain g a b f.xs) eq chain) st p f.clear stocked in
          (g, hs, e', subst (λ z. Stocked hs g p z) f.rest stocked', freed)))
