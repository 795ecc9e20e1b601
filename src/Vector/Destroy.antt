-- ===== src/Vector/Destroy.antt =====
-- Destroying a vector frees the blocks that it points to.
use lazy_tcp.Prelude.{
  ℕ, zero, suc, ◌+◌, ◌≤◌, ◌<◌, ◌≡◌, ◌≢◌, refl, arith, inl, inr, none, some, ◌==◌, ==_iff,
  Bool-cases, Returns, ap, sym, ◌∙◌, true, false,
}
use lazy_tcp.Tcb.{Ptr, Heap, Tcb, write}
use lazy_tcp.Tcb.Ids.{id_at, block_at, free-ok}
use lazy_tcp.Vector.{Vector, free_loop, vec_destroy}
use lazy_tcp.Vector.Laws.{IsVector, slot-ok}

-- The blocks of the slots from `lo` on are freed, and no others.
pub record IsFreed (h : Heap) (v : Vector) (lo : ℕ) (g : Heap) : Type 0 where
  pub gone : (j : ℕ) → lo ≤ j → j < v.size → g (v.slots j) ≡ none
  pub others : (q : Ptr) → ((j : ℕ) → lo ≤ j → j < v.size → v.slots j ≢ q) → g q ≡ h q

module _ (v : Vector) (within : v.size ≤ v.capacity)
    (distinct : (j k : ℕ) → j < v.size → k < v.size → v.slots j ≡ v.slots k → j ≡ k) where
  IsFreed-step :
      (h g : Heap) (lo : ℕ)
      → lo < v.size
      → IsFreed (write h (v.slots lo) none) v (lo + 1) g
      → IsFreed h v lo g
  IsFreed-step h g lo below f =
      let p = v.slots lo in
      let first : g p ≡ none =
        f.others p (λ j above less same. absurd (omega (arith, distinct j lo less below same)))
        ∙ (let e : (p == p) ≡ true = ground arith in rw e) in
      record {
        gone = λ j above less. elim (Bool-cases (lo == j)) [
          | inl here ↦ ap (λ (k : ℕ). g (v.slots k)) (sym ((==_iff lo j).0 here)) ∙ first
          | inr later ↦ f.gone j (ground arith) less
        ];
        others = λ q apart.
            let e : (q == p) ≡ false = ground (arith, apart lo) in
            f.others q (λ j above less. apart j (omega arith) less) ∙ rw e;
      }

  free_loop-IsFreed :
      (h : Heap) (left lo : ℕ)
      → lo + left ≡ v.size
      → ((j : ℕ) → lo ≤ j → j < v.size → (t : Tcb) × (h (v.slots j) ≡ some t))
      → Returns (free_loop h v left lo) (IsFreed h v lo)
  unfolding free_loop
  free_loop-IsFreed h zero lo e live =
      (h, refl, record { gone = λ j above less. absurd (omega arith); others = λ q apart. refl })
  free_loop-IsFreed h (suc left) lo e live =
      let below : lo < v.size = omega arith in
      let (t, at) = live lo (omega arith) below in
      let h1 = write h (v.slots lo) none in
      let live1 : (j : ℕ) → lo + 1 ≤ j → j < v.size → (t : Tcb) × (h1 (v.slots j) ≡ some t) =
        λ j above less.
          let (u, held) = live j (omega arith) less in
          let apart : (v.slots j == v.slots lo) ≡ false =
            elim (Bool-cases (v.slots j == v.slots lo)) [
              | inl hit ↦ absurd (
                  omega (arith, distinct j lo less below ((==_iff (v.slots j) (v.slots lo)).0 hit)))
              | inr miss ↦ miss
            ] in
          (u, rw apart held) in
      let (g, run, f) = free_loop-IsFreed h1 left (lo + 1) (omega arith) live1 in
      (
        g,
        rw (slot-ok v lo (omega arith), free-ok h (v.slots lo) at) run,
        IsFreed-step h g lo below f,
      )

-- For a valid vector, `vec_destroy` meets no fault, frees the blocks of its slots and no others,
-- and leaves an empty vector.
pub vec_destroy-IsFreed :
    (h : Heap) (v : Vector)
    → IsVector h v
    → Returns
        (vec_destroy h v)
        (λ r. IsFreed h v 0 r.0 × (r.1 ≡ record { slots = λ _. 0; size = 0; capacity = 0 }))
unfolding vec_destroy
vec_destroy-IsFreed h v valid =
    let distinct : (j k : ℕ) → j < v.size → k < v.size → v.slots j ≡ v.slots k → j ≡ k =
      λ j k a b same. valid.distinct j k a b (ap (id_at h) same) in
    let live : (j : ℕ) → 0 ≤ j → j < v.size → (t : Tcb) × (h (v.slots j) ≡ some t) = λ j _ less.
      let (a, here) = valid.live j less in
      let (t, at, _) = block_at h (v.slots j) here in (t, at) in
    let (g, run, f) = free_loop-IsFreed v valid.within distinct h v.size 0 (omega arith) live in
    ((g, record { slots = λ _. 0; size = 0; capacity = 0 }), rw run, (f, refl))
