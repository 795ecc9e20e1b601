-- ===== src/Vector/Delete.antt =====
-- Removing a pointer: the block is freed and the last pointer takes its slot.
use lazy_tcp.Prelude.{
  Returns, ◌↔◌, ℕ, zero, suc, ◌+◌, ◌-◌, ◌≤◌, ◌<◌, ◌≡◌, ◌≢◌, inl, inr, refl, arith, none, some, ◌==◌,
  lt→ltb, Bool-cases, some_inj, ==_iff, if◌then◌else◌, ok, ap, sym, ◌∙◌,
}
use lazy_tcp.Tcb.{Ptr, Heap, ConId, write}
use lazy_tcp.Tcb.Ids.{
  id_at, tcb_id_match_iff, tcb_id_match-ne, block_at, load-ok, free-ok, id_at-ok, id_at-write,
}
use lazy_tcp.Vector.{Vector, put, set_slot, remove_at, delete_loop, vec_delete}
use lazy_tcp.Vector.Laws.{IsVector, Present, slot-ok}

-- the vector without slot `k`
abbrev pub dropped : Vector → ℕ → Vector
dropped v k = record v { slots = put v.slots k (v.slots (v.size - 1)); size = v.size - 1 }

module _ (h : Heap) (v : Vector) (valid : IsVector h v) (k : ℕ) (below : k < v.size) where
  remove_at-ok : remove_at h v k ≡ ok (write h (v.slots k) none, dropped v k)
  unfolding remove_at set_slot
  remove_at-ok =
      let (a, here) = valid.live k below in
      let (t, at, named) = block_at h (v.slots k) here in
      rw (
        slot-ok v k (omega (arith, valid.within)),
        free-ok h (v.slots k) at,
        slot-ok v (v.size - 1) (omega (arith, valid.within)),
        lt→ltb k v.capacity (omega (arith, valid.within)),
      )

  delete_loop-ok :
      (left i : ℕ)
      → i + left ≡ v.size
      → i ≤ k
      → delete_loop h v (v.slots k) left i ≡ ok (write h (v.slots k) none, dropped v k)
  unfolding delete_loop
  delete_loop-ok zero i e before = absurd (omega arith)
  delete_loop-ok (suc left) i e before =
      let (a, here) = valid.live i (omega arith) in
      let (t, at, named) = block_at h (v.slots i) here in
      let (b, there) = valid.live k below in
      let (w, at', named') = block_at h (v.slots k) there in
      rw
        (
          slot-ok v i (omega (arith, valid.within)),
          load-ok h (v.slots i) at,
          load-ok h (v.slots k) at',
        )
        (elim (Bool-cases (i == k)) [
          | inl hit ↦
              let same : i ≡ k = (==_iff i k).0 hit in
              let e' : t.id ≡ w.id = ground (arith, ap v.slots same) in
              rw ((tcb_id_match_iff t.id w.id).1 e') (rw same remove_at-ok)
          | inr miss ↦
              let other : t.id ≢ w.id = λ e'.
                let same =
                  valid.distinct i k (omega arith) below
                    (id_at-ok h (v.slots i) at ∙ ap some e' ∙ sym (id_at-ok h (v.slots k) at')) in
                ground arith in
              rw (tcb_id_match-ne t.id w.id other)
                (delete_loop-ok left (i + 1) (omega arith) (ground arith))
        ])

  -- The search stops at the slot of the block itself, since no other has its identity.
  pub vec_delete-ok : vec_delete h v (v.slots k) ≡ ok (write h (v.slots k) none, dropped v k)
  unfolding vec_delete
  vec_delete-ok = delete_loop-ok v.size 0 (omega arith) (omega arith)

  -- every slot that is left was a slot other than `k`
  source :
      (j : ℕ)
      → j < v.size - 1
      → (i : ℕ) × (i < v.size)
        × (i ≢ k)
        × ((dropped v k).slots j ≡ v.slots i)
        × (i ≡ (if j == k then v.size - 1 else j))
  source j less = elim (Bool-cases (j == k)) [
    | inl hit ↦ (v.size - 1, omega arith, ground arith, ground arith, ground arith)
    | inr miss ↦ (j, omega arith, ground arith, ground arith, ground arith)
  ]

  -- freeing the block of slot `k` leaves the other blocks
  other_blocks :
      (i : ℕ)
      → i < v.size
      → i ≢ k
      → id_at (write h (v.slots k) none) (v.slots i) ≡ id_at h (v.slots i)
  other_blocks i less ne =
      id_at-write h (v.slots k) none (v.slots i)
        (λ same. ne (valid.distinct i k less below (ap (id_at h) same)))

  pub dropped-IsVector : IsVector (write h (v.slots k) none) (dropped v k)
  dropped-IsVector = record {
    within = omega (arith, valid.within);
    roomy = valid.roomy;
    small = valid.small;
    live = λ j less.
        let (i, bi, ne, e, _) = source j less in
        let (a, here) = valid.live i bi in (a, rw e (other_blocks i bi ne ∙ here));
    distinct = λ j j' less less' same.
        let (i, bi, ne, e, place) = source j less in
        let (i', bi', ne', e', place') = source j' less' in
        let back =
          sym (ap (id_at (write h (v.slots k) none)) e ∙ other_blocks i bi ne)
          ∙ same
          ∙ ap (id_at (write h (v.slots k) none)) e'
          ∙ other_blocks i' bi' ne' in
        let eq = valid.distinct i i' bi bi' back in ground arith;
  }

  module _ (a : ConId) (named : id_at h (v.slots k) ≡ some a) where
    pub dropped_sound :
        (id : ConId) (q : Ptr)
        → Present (write h (v.slots k) none) (dropped v k) id 0 q
        → Present h v id 0 q × (id ≢ a)
    dropped_sound id q f =
        let (i, bi, ne, e, _) = source f.index f.below in
        let e' : q ≡ v.slots i = sym f.holds ∙ e in
        let kept =
          sym (other_blocks i bi ne) ∙ ap (id_at (write h (v.slots k) none)) (sym e') ∙ f.named in
        (
          record {
            index = i;
            above = omega arith;
            below = bi;
            holds = sym e';
            named = ap (id_at h) e' ∙ kept;
          },
          λ same. ne (valid.distinct i k bi below (kept ∙ ap some same ∙ sym named)),
        )

    pub dropped_complete :
        (id : ConId) (q : Ptr)
        → Present h v id 0 q
        → id ≢ a
        → Present (write h (v.slots k) none) (dropped v k) id 0 q
    dropped_complete id q f ne =
        let i = f.index in
        let elsewhere : i ≢ k = λ same.
          ne (some_inj (sym f.named ∙ ap (id_at h) (sym f.holds ∙ ap v.slots same) ∙ named)) in
        record {
          index = if i == v.size - 1 then k else i;
          above = omega arith;
          below = ground (arith, f.below);
          holds = ground (arith, f.holds, f.below);
          named =
              ap (id_at (write h (v.slots k) none)) (sym f.holds)
              ∙ other_blocks i f.below elsewhere
              ∙ ap (id_at h) f.holds
              ∙ f.named;
        }

    -- For a valid vector with the block of `a` in slot `k`, deleting that block meets no fault,
    -- keeps a valid vector, shortens it by one, and takes out that entry alone.
    pub vec_delete-IsDeleted : Returns (vec_delete h v (v.slots k)) λ r.
        IsVector r.0 r.1
        × (r.1.size ≡ v.size - 1)
        × ((id : ConId) (q : Ptr) → Present r.0 r.1 id 0 q ↔ (Present h v id 0 q × (id ≢ a)))
    vec_delete-IsDeleted = (
      (write h (v.slots k) none, dropped v k),
      vec_delete-ok,
      (
        dropped-IsVector,
        refl,
        λ id q. (λ f. dropped_sound id q f, λ d. dropped_complete id q d.0 d.1),
      ),
    )
