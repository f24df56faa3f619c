-- ===== src/Lbf/Enqueue/Serve.antt =====
-- `lbf_get_hnode` of lbf/src/linux/sch_lbf.c keeps the invariant of the discipline.
use new_ip_linux.Common.{
  ℕ, ◌≡◌, ◌≢◌, refl, ◌∙◌, sym, ap, inl, inr, ◌⊎◌, Option-cases, none, [], ◌∷◌, ◌++◌, length, ◌<◌,
  ◌+◌, All,
}
use mathlib.Core.List.{append_assoc}
use mathlib.Core.Path.{subst}
use new_ip_linux.Lbf.Store.{Ptr, null, HnodeHead, Call, Calls, Kernel, State}
use new_ip_linux.Lbf.Store.Returns.{Returns, returns, mono}
use new_ip_linux.Lbf.Ranges.{get_hnode}
use new_ip_linux.Lbf.Ranges.Order.{lookup, insert-IsSorted, new_hnode-holds}
use new_ip_linux.Lbf.Ranges.Line.{not-mem_of_none}
use new_ip_linux.Lbf.Ranges.Find.{Added}
use new_ip_linux.Lbf.Ranges.Get.{get_hnode-from_lookup, get_hnode-from_insert}
use new_ip_linux.Lbf.Ranges.Full.{with_new_list, get_hnode-null, get_hnode_first}
use new_ip_linux.Lbf.Queue.Order.{IsSorted}
use new_ip_linux.Lbf.Ranges.Order.{IsSorted as InOrder}
use new_ip_linux.Lbf.Stock.{Shelf, Stock, Stocked-nil, hnodes_of}
use new_ip_linux.Lbf.Stock.Heads.{OnShelf}
use new_ip_linux.Lbf.Stock.Shelve.{
  shelve, empty_shelf, Hosts, hnodes_of-shelve, shelve-All, shelve-OnShelf, shelve-Stocked,
  lookup-OnShelf,
}
use new_ip_linux.Lbf.Stock.Valid.{IsLive, IsValid, IsValid-calls, IsReady}

-- From now on `kcalloc` returns NULL or memory that is not in use.
abbrev pub IsFresh : Kernel → State → Type 0
IsFresh kernel s =
    (cs : Calls)
    → (kernel.alloc (cs ++ s.calls) ≡ null)
      ⊎ (kernel.alloc (cs ++ s.calls) ≢ null)
        × (s.hnodes (kernel.alloc (cs ++ s.calls)) ≡ none)
        × (s.pnodes (kernel.alloc (cs ++ s.calls)) ≡ none)

pub later-IsFresh :
    (kernel : Kernel) (s s' : State) (ds : Calls)
    → s'.hnodes ≡ s.hnodes
    → s'.pnodes ≡ s.pnodes
    → s'.calls ≡ ds ++ s.calls
    → IsFresh kernel s
    → IsFresh kernel s'
later-IsFresh kernel s s' ds e f more fresh cs =
    let same : cs ++ s'.calls ≡ (cs ++ ds) ++ s.calls =
      ap (λ c. cs ++ c) more ∙ sym (append_assoc cs ds s.calls) in
    rw (same, e, f) (fresh (cs ++ ds))

-- What is not touched.
pub record Beside (s s' : State) : Type 0 where
  pub pnodes : s'.pnodes ≡ s.pnodes
  pub skbs : s'.skbs ≡ s.skbs
  pub next : s'.sched.next_pnode ≡ s.sched.next_pnode
  pub later : (cs : Calls) × (s'.calls ≡ cs ++ s.calls)

pub Beside-trans : (s s₁ s₂ : State) → Beside s s₁ → Beside s₁ s₂ → Beside s s₂
Beside-trans s s₁ s₂ a b =
    let (cs, e) = a.later in
    let (ds, f) = b.later in
    record {
      pnodes = b.pnodes ∙ a.pnodes;
      skbs = b.skbs ∙ a.skbs;
      next = b.next ∙ a.next;
      later = (ds ++ cs, f ∙ ap (λ c. ds ++ c) e ∙ sym (append_assoc ds cs s.calls));
    }

-- The hnodes are as before, or `x` is new, empty and in its place.
abbrev pub Shelved : (b : ℕ) (st : Stock) (x : Shelf) (st' : Stock) → Type 0
Shelved b st x st' =
    OnShelf x st'
    × Hosts b x
    × ((st' ≡ st) ⊎ ((n : ℕ) × (x ≡ empty_shelf x.at b n) × (st' ≡ shelve b x st)))

-- An hnode for the budget is returned, or NULL where no memory is left.
abbrev pub Served : (kernel : Kernel) (b : ℕ) (s : State) (st : Stock) → Ptr → State → Type 0
Served kernel b s st r s' =
    (r ≡ null)
      × ((l' : HnodeHead) × IsValid s' l' st
          × Beside s s'
          × ((cs : Calls) × (kernel.alloc (cs ++ s.calls) ≡ null)))
    ⊎ ((x : Shelf) × (l' : HnodeHead) × (st' : Stock) × (r ≡ x.at)
        × Shelved b st x st'
        × IsValid s' l' st'
        × Beside s s')

module _ (kernel : Kernel) (b : ℕ) (s : State) (l : HnodeHead) (st : Stock)
    (v : IsValid s l st) where
  Added-Served :
      (r : Ptr) (s' : State) → Added kernel b s l (hnodes_of st) r s' → Served kernel b s st r s'
  Added-Served r s' (g, p, is, e, line, same) =
      let x : Shelf = empty_shelf (kernel.alloc s.calls) b l.len in
      rw (e, is)
        (inr (
          x,
          record l { head = p; len = l.len + 1 },
          shelve b x st,
          refl,
          (shelve-OnShelf b x st, new_hnode-holds b l.len, inr (l.len, refl, refl)),
          record {
            here = refl;
            stocked =
                shelve-Stocked b l.len (kernel.alloc s.calls) s.hnodes g s.pnodes l.head p st
                  v.stocked line;
            ranges =
                subst (λ z. InOrder z) (sym (hnodes_of-shelve b x st))
                  (insert-IsSorted b l.len (kernel.alloc s.calls) (hnodes_of st) v.ranges);
            queues = shelve-All (λ y. IsSorted y.packets) b x st tt v.queues;
            live = shelve-All (λ y. All (λ c. IsLive s (c.1).realpkt) y.packets) b x st tt v.live;
          },
          record { pnodes = refl; skbs = refl; next = refl; later = (Call.kcalloc ∷ [], refl) },
        ))

  pub get_hnode-Served :
      (k : ℕ)
      → IsFresh kernel s
      → length (hnodes_of st) < k
      → Returns (Served kernel b s st) (get_hnode kernel k b s)
  get_hnode-Served k fresh enough = elim (Option-cases (lookup b (hnodes_of st))) [
    | inr (r, e) ↦
        let (x, on, is, hosts) = lookup-OnShelf b r st e in
        rw (get_hnode-from_lookup kernel b k s l v.here refl (v.stocked).line e enough) (
          returns (
            inr (
              x,
              l,
              st,
              sym is,
              (on, hosts, inl refl),
              v,
              record { pnodes = refl; skbs = refl; next = refl; later = ([], refl) },
            )))
    | inl miss ↦ elim (fresh []) [
      | inl full ↦
          rw (get_hnode-null kernel b s l v.here full k refl (v.stocked).line miss enough) (
            returns (
              inl (
                refl,
                (
                  l,
                  IsValid-calls s _ l st v,
                  record {
                    pnodes = refl;
                    skbs = refl;
                    next = refl;
                    later = (Call.kcalloc ∷ [], refl);
                  },
                  ([], full),
                ),
              )))
      | inr (got, unused, other) ↦
          mono
            (get_hnode-from_insert kernel b k s l v.here k refl (v.stocked).line got
              (not-mem_of_none _ (v.stocked).line unused) miss enough)
            Added-Served
    ]
  ]

-- From a state in which a list has been made.
Served-later :
    (kernel : Kernel) (b : ℕ) (s s₁ : State) (st : Stock)
    → Beside s s₁
    → (r : Ptr) (s' : State) → Served kernel b s₁ st r s'
    → Served kernel b s st r s'
Served-later kernel b s s₁ st beside r s' (inl (z, (l', v, beside', (cs, full)))) =
    let (ds, later) = beside.later in
    let same : cs ++ s₁.calls ≡ (cs ++ ds) ++ s.calls =
      ap (λ c. cs ++ c) later ∙ sym (append_assoc cs ds s.calls) in
    inl (z, (l', v, Beside-trans s s₁ s' beside beside', (cs ++ ds, rw same at full)))
Served-later kernel b s s₁ st beside r s' (inr (x, l', st', is, shelved, v, beside')) =
    inr (x, l', st', is, shelved, v, Beside-trans s s₁ s' beside beside')

-- If there is no list of hnodes, then `kcalloc` has memory for it, when the calls `cs` have been made
-- from now on.
abbrev pub HasList : Kernel → Calls → State → Type 0
HasList kernel cs s = s.sched.hnode_list ≡ none → kernel.alloc (cs ++ s.calls) ≢ null

pub get_hnode-Served_ready :
    (kernel : Kernel) (b : ℕ) (s : State) (st : Stock) (k : ℕ)
    → IsReady s st
    → IsFresh kernel s
    → HasList kernel [] s
    → length (hnodes_of st) < k
    → Returns (Served kernel b s st) (get_hnode kernel k b s)
get_hnode-Served_ready kernel b s st k (inr (l, v)) fresh has enough =
    get_hnode-Served kernel b s l st v k fresh enough
get_hnode-Served_ready kernel b s st k (inl (none_yet, e)) fresh has enough =
    let s₁ : State = with_new_list s in
    let v₁ : IsValid s₁ (record { head = null; tail = null; len = 0 }) [] = record {
      here = refl;
      stocked = Stocked-nil s.hnodes s.pnodes;
      ranges = tt;
      queues = tt;
      live = tt;
    } in
    rw (get_hnode_first kernel k b s none_yet (has none_yet), e)
      (mono
        (get_hnode-Served kernel b s₁ (record { head = null; tail = null; len = 0 }) [] v₁ k
          (later-IsFresh kernel s s₁ (Call.kcalloc ∷ []) refl refl refl fresh) (rw e at enough))
        (Served-later kernel b s s₁ []
          (record { pnodes = refl; skbs = refl; next = refl; later = (Call.kcalloc ∷ [], refl) })))
