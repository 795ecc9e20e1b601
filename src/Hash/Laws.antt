-- ===== src/Hash/Laws.antt =====
-- The state of the table that every operation keeps, and what the table holds: an abstract map
-- from identities to blocks.
use lazy_tcp.Prelude.{
  ℕ, ◌<◌, ◌≡◌, inl, inr, arith, true, Option, none, some, Bool-cases, Returns, ap, sym, ◌∙◌,
}
use lazy_tcp.Tcb.{Ptr, Heap, ConId}
use lazy_tcp.Tcb.Ids.{id_at}
use lazy_tcp.Vector.{Vector}
use lazy_tcp.Vector.Laws.{IsVector, Present, Finds, missing, found, vec_find-Finds}
use lazy_tcp.Hash.{Table, ht_size, hash_id, hash_find}

-- The bucket index of every identity is below the number of buckets.
pub hash_id-lt : (id : ConId) → hash_id id < ht_size
unfolding hash_id
hash_id-lt id = omega arith

-- Once set up, each bucket is a valid vector of blocks that hash to it.
pub record IsBucket (h : Heap) (v : Vector) (k : ℕ) : Type 0 where
  pub vector : IsVector h v
  pub home : (i : ℕ) → i < v.size → (a : ConId) → id_at h (v.slots i) ≡ some a → hash_id a ≡ k

abbrev pub IsTable : Table → Type 0
IsTable s = s.init ≡ true → (k : ℕ) → k < ht_size → IsBucket s.heap (s.buckets k) k

-- The table holds the block `p` under the identity `id`.
pub record Holds (s : Table) (id : ConId) (p : Ptr) : Type 0 where
  pub init : s.init ≡ true
  pub present : Present s.heap (s.buckets (hash_id id)) id 0 p

-- A valid table that holds two blocks under one identity holds one block.
pub Holds-unique :
    (s : Table) (id : ConId) (p q : Ptr) → IsTable s → Holds s id p → Holds s id q → p ≡ q
Holds-unique s id p q valid a b =
    let k = hash_id id in
    let v = s.buckets k in
    let f = a.present in
    let g = b.present in
    let bucket = valid a.init k (hash_id-lt id) in
    let same =
      bucket.vector.distinct f.index g.index f.below g.below
        (ap (id_at s.heap) f.holds ∙ f.named ∙ sym (ap (id_at s.heap) g.holds ∙ g.named)) in
    sym f.holds ∙ ap v.slots same ∙ g.holds

pub data Looks (s : Table) (id : ConId) : Option Ptr → Type 0 where
  nothing : ((p : Ptr) → ¬ Holds s id p) → Looks s id none
  block : (p : Ptr) → Holds s id p → Looks s id (some p)

-- For a valid table, `hash_find` meets no fault, and returns the block under the identity exactly
-- if the table holds one.
pub hash_find-Looks : (s : Table) (id : ConId) → IsTable s → Returns (hash_find s id) (Looks s id)
unfolding hash_find
hash_find-Looks s id valid = elim (Bool-cases s.init) [
  | inl ready ↦
      let bucket = valid ready (hash_id id) (hash_id-lt id) in
      let (r, run, finds) = vec_find-Finds s.heap (s.buckets (hash_id id)) id bucket.vector in
      (r, rw (ready, hash_find) run, looks ready r finds)
  | inr cold ↦ (none, rw (cold, hash_find), nothing (λ p holds. ground (arith, holds.init)))
]
  where
    looks :
        s.init ≡ true
        → (r : Option Ptr) → Finds s.heap (s.buckets (hash_id id)) id 0 r
        → Looks s id r
    looks ready none (missing absent) = nothing (λ p holds.
        let f = holds.present in
        absent f.index f.above f.below (ap (id_at s.heap) f.holds ∙ f.named))
    looks ready (some p) (found f) = block p (record { init = ready; present = f })
