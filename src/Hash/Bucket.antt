-- ===== src/Hash/Bucket.antt =====
-- Replacing one bucket of the table, and with it the heap.
use lazy_tcp.Prelude.{
  ℕ, ◌<◌, ◌≡◌, ◌≢◌, ◌⊎◌, inl, inr, arith, true, false, some, ◌==◌, Bool-cases, ==_iff, ap, sym, ◌∙◌,
}
use lazy_tcp.Tcb.{Ptr, Heap, ConId}
use lazy_tcp.Tcb.Ids.{id_at}
use lazy_tcp.Vector.{Vector}
use lazy_tcp.Vector.Laws.{Present}
use lazy_tcp.Hash.{Table, ht_size, set_bucket, hash_id}
use lazy_tcp.Hash.Laws.{IsBucket, IsTable, Holds}

abbrev pub with_bucket : Table → Heap → ℕ → Vector → ℕ → Table
with_bucket s h k v n = record s { heap = h; buckets = set_bucket s.buckets k v; size = n }

pub IsTable-set :
    (s : Table) (h : Heap) (k : ℕ) (v : Vector) (n : ℕ)
    → IsBucket h v k
    → ((j : ℕ) → j < ht_size → j ≢ k → IsBucket h (s.buckets j) j)
    → IsTable (with_bucket s h k v n)
IsTable-set s h k v n here others ready j less = elim (Bool-cases (j == k)) [
  | inl same ↦ let e = (==_iff j k).0 same in rw (same, e) here
  | inr other ↦ rw other (others j less (ground arith))
]

module _ (s : Table) (h : Heap) (k : ℕ) (v : Vector) (n : ℕ) (id : ConId) (q : Ptr)
    (ready : s.init ≡ true) where
  pub Holds-set_here : hash_id id ≡ k → Present h v id 0 q → Holds (with_bucket s h k v n) id q
  Holds-set_here e f = record {
    init = ready;
    present = let t : (hash_id id == k) ≡ true = ground arith in rw t f;
  }

  pub Holds-set_other :
      hash_id id ≢ k
      → Present h (s.buckets (hash_id id)) id 0 q
      → Holds (with_bucket s h k v n) id q
  Holds-set_other ne f = record {
    init = ready;
    present = let t : (hash_id id == k) ≡ false = ground arith in rw t f;
  }

  pub Holds-set_cases :
      Holds (with_bucket s h k v n) id q
      → ((hash_id id ≡ k) × Present h v id 0 q)
        ⊎ ((hash_id id ≢ k) × Present h (s.buckets (hash_id id)) id 0 q)
  Holds-set_cases holds = elim (Bool-cases (hash_id id == k)) [
    | inl same ↦ inl ((==_iff (hash_id id) k).0 same, (rw same at holds.present))
    | inr other ↦ inr (ground arith, (rw other at holds.present))
  ]

-- A write to the heap that keeps the identities of a bucket's blocks keeps the bucket.
module _ (h g : Heap) (v : Vector)
    (same : (i : ℕ) → i < v.size → id_at g (v.slots i) ≡ id_at h (v.slots i)) where
  pub IsBucket-same : (k : ℕ) → IsBucket h v k → IsBucket g v k
  IsBucket-same k b = record {
    vector = record {
      within = b.vector.within;
      roomy = b.vector.roomy;
      small = b.vector.small;
      live = λ i less. let (a, here) = b.vector.live i less in (a, same i less ∙ here);
      distinct = λ i j li lj e. b.vector.distinct i j li lj (sym (same i li) ∙ e ∙ same j lj);
    };
    home = λ i less a e. b.home i less a (sym (same i less) ∙ e);
  }

  pub Present-same : (id : ConId) (q : Ptr) → Present h v id 0 q → Present g v id 0 q
  Present-same id q f = record {
    index = f.index;
    above = f.above;
    below = f.below;
    holds = f.holds;
    named = ap (id_at g) (sym f.holds) ∙ same f.index f.below ∙ ap (id_at h) f.holds ∙ f.named;
  }

-- The blocks of one bucket are not those of another.
pub apart :
    (h : Heap) (v : Vector) (j : ℕ) (p : Ptr) (a : ConId)
    → IsBucket h v j
    → id_at h p ≡ some a
    → hash_id a ≢ j
    → (i : ℕ) → i < v.size
    → v.slots i ≢ p
apart h v j p a bucket named ne i less e = ne (bucket.home i less a (ap (id_at h) e ∙ named))
