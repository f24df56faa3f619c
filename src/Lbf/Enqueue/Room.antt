-- ===== src/Lbf/Enqueue/Room.antt =====
-- Packets that are as long as lbf/src/linux/sch_lbf.c takes them to be.
use new_ip_linux.Common.{ℕ, ◌+◌, ◌≤◌, ◌≡◌, ◌⊎◌, inl, inr, ◌∙◌, true, false, sym, ◌≢◌, arith, refl}
use new_ip_linux.Wire.{Mem, store16}
use new_ip_linux.Wire.Order.{store16_ne}
use new_ip_linux.Wire.Latency
use new_ip_linux.Lbf.Store.{Skb}
use new_ip_linux.Lbf.Enqueue.{has_contract, contract_at}

-- The header of offsets is in the packet, and where it has a contract there is room for a latency
-- contract, the longer of the two.
pub record IsWhole (b : Skb) : Type 0 where
  pub header : 3 ≤ b.len
  pub contract : (has_contract b.network ≡ false) ⊎ (contract_at b.network + Latency.size ≤ b.len)

true-apart : true ≢ false
true-apart e = cc

pub contract_room :
    (b : Skb)
    → IsWhole b
    → has_contract b.network ≡ true
    → contract_at b.network + Latency.size ≤ b.len
contract_room b w holds = elim w.contract [
  | inl none_there ↦ absurd (true-apart (sym holds ∙ none_there))
  | inr room ↦ room
]

-- A store behind the header leaves the offsets.
has_contract-store16 : (m : Mem) (o v : ℕ) → 3 ≤ o → has_contract (store16 m o v) ≡ has_contract m
unfolding has_contract
has_contract-store16 m o v far =
    rw
      (
        store16_ne m o v 1 (omega arith) (omega arith),
        store16_ne m o v 2 (omega arith) (omega arith),
      )
      refl

contract_at-store16 : (m : Mem) (o v : ℕ) → 3 ≤ o → contract_at (store16 m o v) ≡ contract_at m
contract_at-store16 m o v far = rw (store16_ne m o v 1 (omega arith) (omega arith)) refl

pub store16-IsWhole :
    (b : Skb) (o v : ℕ) → 3 ≤ o → IsWhole b → IsWhole (record b { network = store16 b.network o v })
store16-IsWhole b o v far w = record {
  header = w.header;
  contract = elim w.contract [
    | inl n ↦ inl (has_contract-store16 b.network o v far ∙ n)
    | inr room ↦ inr (rw (contract_at-store16 b.network o v far) room)
  ];
}
