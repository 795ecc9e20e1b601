-- ===== src/Hash/Destroy.antt =====
-- Destroying the table frees every block that it holds.
use lazy_tcp.Prelude.{
  ℕ, zero, suc, ◌+◌, ◌≤◌, ◌<◌, ◌≡◌, ◌≢◌, refl, arith, true, false, inl, inr, none, some, ◌==◌,
  ==_iff, Bool-cases, Returns, ap, sym, ◌∙◌,
}
use mathlib.Core.Path.{subst}
use lazy_tcp.Tcb.{Ptr, Heap, ConId}
use lazy_tcp.Tcb.Ids.{id_at}
use lazy_tcp.Vector.{Vector}
use lazy_tcp.Vector.Laws.{Present}
use lazy_tcp.Vector.Destroy.{IsFreed, vec_destroy-IsFreed}
use lazy_tcp.Hash.{Table, ht_size, hash_id, set_bucket, destroy_loop, hash_destroy}
use lazy_tcp.Hash.Laws.{IsBucket, IsTable, Holds, hash_id-lt}
use lazy_tcp.Hash.Bucket.{IsBucket-same}

-- the buckets from `lo` on, of vectors that hash to them
abbrev pub AreBuckets : Heap → (ℕ → Vector) → ℕ → Type 0
AreBuckets h bs lo = (k : ℕ) → lo ≤ k → k < ht_size → IsBucket h (bs k) k

-- The blocks of the buckets from `lo` on are freed, and no others.
record IsSwept (h : Heap) (bs : ℕ → Vector) (lo : ℕ) (g : Heap) : Type 0 where
  pub gone : (k j : ℕ) → lo ≤ k → k < ht_size → j < (bs k).size → g ((bs k).slots j) ≡ none
  pub others :
      (q : Ptr)
      → ((k j : ℕ) → lo ≤ k → k < ht_size → j < (bs k).size → (bs k).slots j ≢ q)
      → g q ≡ h q

-- blocks of different buckets are different
buckets_apart :
    {h : Heap} {v w : Vector} {k l : ℕ}
    → IsBucket h v k
    → IsBucket h w l
    → k ≢ l
    → (i j : ℕ) → i < v.size
    → j < w.size
    → v.slots i ≢ w.slots j
buckets_apart {h} {v} {w} {k} {l} b c ne i j less less' same =
    let (a, here) = b.vector.live i less in
    let there : id_at h (w.slots j) ≡ some a = ap (id_at h) (sym same) ∙ here in
    ne (sym (b.home i less a here) ∙ c.home j less' a there)

module _ (h h1 g : Heap) (bs : ℕ → Vector) (lo : ℕ) (low : lo < ht_size) (v : Vector)
    (valid : AreBuckets h bs lo) (freed : IsFreed h (bs lo) 0 h1) where
  rest_same : (k : ℕ) → lo + 1 ≤ k → set_bucket bs lo v k ≡ bs k
  rest_same k above = let e : (k == lo) ≡ false = ground arith in rw e

  rest_valid : AreBuckets h1 (set_bucket bs lo v) (lo + 1)
  rest_valid k above less =
      let b = valid k (omega arith) less in
      let first = valid lo (omega arith) low in
      rw (rest_same k above) (
        IsBucket-same h h1 (bs k)
          (λ i below.
            let kept =
              freed.others ((bs k).slots i)
                (λ j _ less'. buckets_apart first b (λ e. omega arith) j i less' below) in
            rw (kept, id_at))
          k b)

  rest_untouched :
      IsSwept h1 (set_bucket bs lo v) (lo + 1) g
      → (q : Ptr) → ((k j : ℕ) → lo + 1 ≤ k → k < ht_size → j < (bs k).size → (bs k).slots j ≢ q)
      → g q ≡ h1 q
  rest_untouched s q apart = s.others q (λ k j above less.
      subst (λ (w : Vector). j < w.size → w.slots j ≢ q) (sym (rest_same k above))
        (apart k j above less))

  rest_gone :
      IsSwept h1 (set_bucket bs lo v) (lo + 1) g
      → (k j : ℕ) → lo + 1 ≤ k
      → k < ht_size
      → j < (bs k).size
      → g ((bs k).slots j) ≡ none
  rest_gone s k j above less =
      subst (λ (w : Vector). j < w.size → g (w.slots j) ≡ none) (rest_same k above)
        (s.gone k j above less)

  first_gone :
      IsSwept h1 (set_bucket bs lo v) (lo + 1) g
      → (j : ℕ) → j < (bs lo).size
      → g ((bs lo).slots j) ≡ none
  first_gone s j below =
      rest_untouched s ((bs lo).slots j) (λ k i above less inside.
        buckets_apart (valid k (omega arith) less) (valid lo (omega arith) low) (λ e. omega arith) i
          j inside below)
      ∙ freed.gone j (omega arith) below

  IsSwept-step : IsSwept h1 (set_bucket bs lo v) (lo + 1) g → IsSwept h bs lo g
  IsSwept-step s = record {
    gone = λ k j above less below. elim (Bool-cases (lo == k)) [
      | inl here ↦
          let e = (==_iff lo k).0 here in
          subst (λ (l : ℕ). j < (bs l).size → g ((bs l).slots j) ≡ none) e (first_gone s j) below
      | inr later ↦ rest_gone s k j (ground arith) less below
    ];
    others = λ q apart.
        rest_untouched s q (λ k j above. apart k j (omega arith))
        ∙ freed.others q (λ j _ below. apart lo j (omega arith) low below);
  }

destroy_loop-IsSwept :
    (h : Heap) (bs : ℕ → Vector) (left lo : ℕ)
    → lo + left ≡ ht_size
    → AreBuckets h bs lo
    → Returns (destroy_loop h bs left lo) (λ r. IsSwept h bs lo r.0)
unfolding destroy_loop
destroy_loop-IsSwept h bs zero lo e valid = (
  (h, bs),
  refl,
  record { gone = λ k j above less. absurd (omega arith); others = λ q apart. refl },
)
destroy_loop-IsSwept h bs (suc left) lo e valid =
    let low : lo < ht_size = omega arith in
    let ((h1, v), freed_run, (freed, _)) =
      vec_destroy-IsFreed h (bs lo) (valid lo (omega arith) low).vector in
    let (r, run, swept) =
      destroy_loop-IsSwept h1 (set_bucket bs lo v) left (lo + 1) (omega arith)
        (rest_valid h h1 h1 bs lo low v valid freed) in
    (r, rw freed_run run, IsSwept-step h h1 r.0 bs lo low v valid freed swept)

-- The effect of a call of `hash_destroy`.
pub record IsDestroyed (s r : Table) : Type 0 where
  pub gone : (id : ConId) (p : Ptr) → Holds s id p → r.heap p ≡ none
  pub others : (q : Ptr) → ((id : ConId) → ¬ Holds s id q) → r.heap q ≡ s.heap q
  pub cold : r.init ≡ false
  pub empty : s.init ≡ true → r.size ≡ 0
  pub valid : IsTable r

IsDestroyed-held :
    (s : Table)
    → s.init ≡ true
    → IsTable s
    → (h : Heap) (bs : ℕ → Vector) → IsSwept s.heap s.buckets 0 h
    → IsDestroyed s (record { heap = h; buckets = bs; size = 0; init = false })
IsDestroyed-held s ready valid h bs swept = record {
  gone = λ id p holds.
      let f = holds.present in
      ap h (sym f.holds) ∙ swept.gone (hash_id id) f.index (omega arith) (hash_id-lt id) f.below;
  others = λ q apart. swept.others q (λ k j _ less below same.
      let b = valid ready k less in
      let (a, here) = b.vector.live j below in
      apart a (record {
        init = ready;
        present = slot_present k j below same a here (b.home j below a here);
      }));
  cold = refl;
  empty = λ _. refl;
  valid = λ off. ground (arith, off);
}
  where
    slot_present :
        {q : Ptr} (k j : ℕ)
        → j < (s.buckets k).size
        → (s.buckets k).slots j ≡ q
        → (a : ConId) → id_at s.heap ((s.buckets k).slots j) ≡ some a
        → hash_id a ≡ k
        → Present s.heap (s.buckets (hash_id a)) a 0 q
    slot_present {q} k j below same a here home =
        subst (λ (l : ℕ). Present s.heap (s.buckets l) a 0 q) (sym home)
          (record {
            index = j;
            above = omega arith;
            below = below;
            holds = same;
            named = ap (id_at s.heap) (sym same) ∙ here;
          })

-- For a valid table, `hash_destroy` meets no fault. It frees every block that the table holds and
-- leaves every other block as it was; the table is cold afterwards, with a count of 0 if it was
-- set up, and it is valid.
pub hash_destroy-IsDestroyed : (s : Table) → IsTable s → Returns (hash_destroy s) (IsDestroyed s)
unfolding hash_destroy
hash_destroy-IsDestroyed s valid = elim (Bool-cases s.init) [
  | inl ready ↦
      let ((h, bs), run, swept) =
        destroy_loop-IsSwept s.heap s.buckets ht_size 0 refl (λ k _. valid ready k) in
      (
        record { heap = h; buckets = bs; size = 0; init = false },
        rw (ready, run),
        IsDestroyed-held s ready valid h bs swept,
      )
  | inr off ↦ (
    s,
    rw off,
    record {
      gone = λ id p holds. ground (arith, off, holds.init);
      others = λ q apart. refl;
      cold = off;
      empty = λ ready. ground (arith, off, ready);
      valid = valid;
    },
  )
]
