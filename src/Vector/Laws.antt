-- ===== src/Vector/Laws.antt =====
-- The search finds the block with the identity, and only that.
use lazy_tcp.Prelude.{
  ℕ, zero, suc, ◌+◌, ◌^◌, ◌≤◌, ◌<◌, ◌≡◌, ◌≢◌, inl, inr, refl, arith, Option, none, some, ◌==◌,
  lt→ltb, Bool-cases, ==_iff, ap, ◌∙◌, ok, Returns,
}
use lazy_tcp.Tcb.{Ptr, Heap, ConId, tcb_id_match}
use lazy_tcp.Tcb.Ids.{id_at, tcb_id_match_iff, block_at, load-ok, id_at-ok}
use lazy_tcp.Vector.{Vector, slot, find_loop, vec_find}

-- The used slots lie in the memory and point to live blocks with different identities.
pub record IsVector (h : Heap) (v : Vector) : Type 0 where
  pub within : v.size ≤ v.capacity
  pub roomy : 1 ≤ v.capacity
  pub small : v.capacity < 2 ^ 32
  pub live : (i : ℕ) → i < v.size → (a : ConId) × (id_at h (v.slots i) ≡ some a)
  pub distinct :
      (i j : ℕ) → i < v.size → j < v.size → id_at h (v.slots i) ≡ id_at h (v.slots j) → i ≡ j

pub slot-ok : (v : Vector) (i : ℕ) → i < v.capacity → slot v i ≡ ok (v.slots i)
unfolding slot
slot-ok v i h = rw (lt→ltb _ _ h)

abbrev pub Absent : Heap → Vector → ConId → ℕ → Type 0
Absent h v id lo = (j : ℕ) → lo ≤ j → j < v.size → id_at h (v.slots j) ≢ some id

-- a used slot from `lo` on that points to the block with the identity
pub record Present (h : Heap) (v : Vector) (id : ConId) (lo : ℕ) (p : Ptr) : Type 0 where
  pub index : ℕ
  pub above : lo ≤ index
  pub below : index < v.size
  pub holds : v.slots index ≡ p
  pub named : id_at h p ≡ some id

pub data Finds (h : Heap) (v : Vector) (id : ConId) (lo : ℕ) : Option Ptr → Type 0 where
  missing : Absent h v id lo → Finds h v id lo none
  found : {p : Ptr} → Present h v id lo p → Finds h v id lo (some p)

module _ (h : Heap) (v : Vector) (id : ConId) (valid : IsVector h v) where
  Finds-step :
      {lo : ℕ} {r : Option Ptr}
      → id_at h (v.slots lo) ≢ some id
      → Finds h v id (lo + 1) r
      → Finds h v id lo r
  Finds-step {lo} ne (missing absent) = missing λ j above below. elim (Bool-cases (lo == j)) [
    | inl same ↦ rw (← (==_iff lo j).0 same) ne
    | inr other ↦ absent j (ground arith) below
  ]
  Finds-step ne (found f) = found (record {
    index = f.index;
    above = omega (arith, f.above);
    below = f.below;
    holds = f.holds;
    named = f.named;
  })

  find_loop-Finds :
      (left lo : ℕ) → lo + left ≡ v.size → Returns (find_loop h v id left lo) (Finds h v id lo)
  unfolding find_loop
  find_loop-Finds zero lo e = (none, refl, missing (λ j a b. absurd (omega arith)))
  find_loop-Finds (suc left) lo e =
      let (a, here) = valid.live lo (omega arith) in
      let (t, at, named) = block_at h (v.slots lo) here in
      let (r, run, rest) = find_loop-Finds left (lo + 1) (omega arith) in
      rw (slot-ok v lo (omega (arith, valid.within)), load-ok h (v.slots lo) at)
        (elim (Bool-cases (tcb_id_match t.id id)) [
          | inl same ↦ (
            some (v.slots lo),
            rw same,
            found (record {
              index = lo;
              above = omega arith;
              below = omega arith;
              holds = refl;
              named = id_at-ok h (v.slots lo) at ∙ ap some ((tcb_id_match_iff t.id id).0 same);
            }),
          )
          | inr other ↦ (
            r,
            rw other run,
            Finds-step (λ n. ground (arith, tcb_id_match_iff t.id id, id_at-ok h (v.slots lo) at))
                rest,
          )
        ])

  -- For a valid vector, `vec_find` meets no fault, and returns a block with the identity exactly
  -- if the vector has one.
  pub vec_find-Finds : Returns (vec_find h v id) (Finds h v id 0)
  unfolding vec_find
  vec_find-Finds = find_loop-Finds v.size 0 (omega arith)
