-- ===== src/Vector/Push.antt =====
-- Adding a pointer at the end, with the growth of the memory.
use lazy_tcp.Prelude.{
  ℕ, ◌+◌, ◌^◌, ◌≤◌, ◌<◌, ◌≡◌, ◌⊎◌, inl, inr, refl, arith, Bool, true, false, none, some, ◌==◌,
  lt→ltb, Bool-cases, some_inj, ==_iff, ok, Returns, ap, sym, ◌∙◌,
}
use lazy_tcp.Word.{u32}
use lazy_tcp.Tcb.{Ptr, Heap, ConId}
use lazy_tcp.Tcb.Ids.{id_at}
use lazy_tcp.Vector.{Vector, Memory, set_slot, put, grow, append, vec_push}
use lazy_tcp.Vector.Laws.{IsVector, Absent, Present}

-- The outcome: the pointer stands behind the old ones, or the memory is full, `realloc` returned NULL
-- and nothing changed.
pub data Pushes (mem : Memory) (v : Vector) (p : Ptr) : Bool × Vector → Type 0 where
  pushed :
      (v' : Vector)
      → v'.size ≡ v.size + 1
      → v'.slots v.size ≡ p
      → ((i : ℕ) → i < v.size → v'.slots i ≡ v.slots i)
      → Pushes mem v p (true, v')
  refused : v.size ≡ v.capacity → mem ≡ none → Pushes mem v p (false, v)

pub record IsPushed (mem : Memory) (h : Heap) (v : Vector) (p : Ptr) (r : Bool × Vector)
    : Type 0 where
  pub outcome : Pushes mem v p r
  pub valid : IsVector h r.1

module _ (h : Heap) (v : Vector) (p : Ptr) (a : ConId) (valid : IsVector h v)
    (named : id_at h p ≡ some a) (absent : Absent h v a 0) where
  module _ (v' : Vector) (size : v'.size ≡ v.size + 1) (last : v'.slots v.size ≡ p)
      (same : (i : ℕ) → i < v.size → v'.slots i ≡ v.slots i) where
    -- a used slot is the new one or an old one
    place :
        (i : ℕ)
        → i < v'.size
        → ((i ≡ v.size) × (v'.slots i ≡ p)) ⊎ ((i < v.size) × (v'.slots i ≡ v.slots i))
    place i below = elim (Bool-cases (i == v.size)) [
      | inl at_end ↦ let e = (==_iff i v.size).0 at_end in inl (e, rw e last)
      | inr before ↦ let less : i < v.size = ground arith in inr (less, same i less)
    ]

    extended_live : (i : ℕ) → i < v'.size → (b : ConId) × (id_at h (v'.slots i) ≡ some b)
    extended_live i below = elim (place i below) [
      | inl (e, new) ↦ (a, rw new named)
      | inr (less, old) ↦ let (b, here) = valid.live i less in (b, rw old here)
    ]

    extended_distinct :
        (i j : ℕ) → i < v'.size → j < v'.size → id_at h (v'.slots i) ≡ id_at h (v'.slots j) → i ≡ j
    extended_distinct i j bi bj e = elim (place i bi) [
      | inl (ei, new) ↦ elim (place j bj) [
        | inl (ej, new') ↦ omega arith
        | inr (less, old) ↦ absurd (
            absent j (omega arith) less (ap (id_at h) (sym old) ∙ sym e ∙ ap (id_at h) new ∙ named))
      ]
      | inr (less, old) ↦ elim (place j bj) [
        | inl (ej, new) ↦
            absurd
              (absent i (omega arith) less (ap (id_at h) (sym old) ∙ e ∙ ap (id_at h) new ∙ named))
        | inr (less', old') ↦
            valid.distinct i j less less' (ap (id_at h) (sym old) ∙ e ∙ ap (id_at h) old')
      ]
    ]

    -- A vector that agrees with `v` below its size and has `p` at the end is valid.
    pub extended : v'.size ≤ v'.capacity → v'.capacity < 2 ^ 32 → IsVector h v'
    extended fits small = record {
      within = fits;
      roomy = omega (arith, size);
      small = small;
      live = extended_live;
      distinct = extended_distinct;
    }

  append-IsPushed :
      (mem : Memory) (w : Vector)
      → w.size ≡ v.size
      → ((i : ℕ) → i < v.size → w.slots i ≡ v.slots i)
      → v.size < w.capacity
      → w.capacity < 2 ^ 32
      → Returns (append w p) (IsPushed mem h v p)
  unfolding append set_slot
  append-IsPushed mem w size same fits small =
      let v' : Vector = record w { slots = put w.slots w.size p; size = u32 (w.size + 1) } in
      let grown : v'.size ≡ v.size + 1 = omega (arith, size) in
      let last : v'.slots v.size ≡ p = ground arith in
      let kept : (i : ℕ) → i < v.size → v'.slots i ≡ v.slots i = λ i less. ground (arith, same i) in
      (
        (true, v'),
        rw (lt→ltb w.size w.capacity (omega (arith, size))),
        record {
          outcome = pushed v' grown last kept;
          valid = extended v' grown last kept (omega (arith, size)) small;
        },
      )

  -- For a valid vector of capacity below 2 ^ 31 without the identity `a`, pushing the block of `a`
  -- meets no fault, leaves a valid vector, and adds the pointer at the end or, where memory runs
  -- out, changes nothing.
  pub vec_push-IsPushed :
      (mem : Memory) → v.capacity < 2 ^ 31 → Returns (vec_push mem v p) (IsPushed mem h v p)
  unfolding vec_push grow
  vec_push-IsPushed mem room = elim (Bool-cases (v.size == v.capacity)) [
    | inr space ↦
        rw space
          (append-IsPushed mem v refl (λ i less. refl) (ground (arith, valid.within)) valid.small)
    | inl full ↦ rw full (when_full mem ((==_iff v.size v.capacity).0 full) refl)
  ]
    where
      when_full :
          (m : Memory)
          → v.size ≡ v.capacity
          → mem ≡ m
          → Returns
              (elim m [ none ↦ ok (false, v) | some new ↦ append (grow new v) p ])
              (IsPushed mem h v p)
      when_full none same e = ((false, v), refl, record { outcome = refused same e; valid = valid })
      when_full (some new) same e =
          append-IsPushed mem (grow new v) refl (λ i less. ground (arith, valid.within))
            (ground (arith, valid.roomy, room)) (ground (arith, room))

-- After a push the blocks are those of before and the new one.
module _ (h : Heap) (v v' : Vector) (p : Ptr) (a id : ConId) (q : Ptr) (named : id_at h p ≡ some a)
    (size : v'.size ≡ v.size + 1) (last : v'.slots v.size ≡ p)
    (same : (i : ℕ) → i < v.size → v'.slots i ≡ v.slots i) where
  pub pushed_sound : Present h v' id 0 q → Present h v id 0 q ⊎ ((id ≡ a) × (q ≡ p))
  pushed_sound f = elim (Bool-cases (f.index == v.size)) [
    | inl at_end ↦
        let e : q ≡ p = sym f.holds ∙ ap v'.slots ((==_iff f.index v.size).0 at_end) ∙ last in
        inr (some_inj (sym f.named ∙ ap (id_at h) e ∙ named), e)
    | inr before ↦
        let less : f.index < v.size = ground (arith, f.below) in
        inl (record {
          index = f.index;
          above = omega arith;
          below = less;
          holds = sym (same f.index less) ∙ f.holds;
          named = f.named;
        })
  ]

  pub pushed_kept : Present h v id 0 q → Present h v' id 0 q
  pushed_kept f = record {
    index = f.index;
    above = omega arith;
    below = omega (arith, f.below);
    holds = same f.index f.below ∙ f.holds;
    named = f.named;
  }

pub pushed_new :
    (h : Heap) (v v' : Vector) (p : Ptr) (a : ConId)
    → id_at h p ≡ some a
    → v'.size ≡ v.size + 1
    → v'.slots v.size ≡ p
    → Present h v' a 0 p
pushed_new h v v' p a named size last = record {
  index = v.size;
  above = omega arith;
  below = omega arith;
  holds = last;
  named = named;
}
