-- ===== src/Pool/Listing.antt =====
-- The waiting jobs as a list, and the loop that moves them up.
use lazy_tcp.Prelude.{
  ℕ, zero, suc, ◌+◌, ◌≤◌, ◌<◌, ◌≡◌, inl, inr, refl, arith, false, List, [], ◌∷◌, ◌++◌, ◌==◌,
  Bool-cases, ==_iff, ap, sym, ◌∙◌,
}
use lazy_tcp.Pool.{Job, Pool, set_job, shift_loop}

-- the jobs at `i`, `i + 1`, ..., `n` of them
unfoldable pub listing : (ℕ → Job) → (i n : ℕ) → List Job
listing f i zero = []
listing f i (suc n) = f i ∷ listing f (i + 1) n

-- the jobs that wait, the first to be handled first
abbrev pub pending : Pool → List Job
pending s = listing s.operations 0 s.job_count

pub listing-same :
    (f g : ℕ → Job) (i k n : ℕ)
    → ((j : ℕ) → j < n → f (i + j) ≡ g (k + j))
    → listing f i n ≡ listing g k n
unfolding listing
listing-same f g i k zero h = refl
listing-same f g i k (suc n) h =
    let left : i ≡ i + 0 = omega arith in
    let right : k + 0 ≡ k = omega arith in
    let first : f i ≡ g k = ap f left ∙ h 0 (omega arith) ∙ ap g right in
    let rest = listing-same f g (i + 1) (k + 1) n (λ j less.
      let a : i + 1 + j ≡ i + suc j = omega arith in
      let b : k + suc j ≡ k + 1 + j = omega arith in ap f a ∙ h (suc j) (omega arith) ∙ ap g b) in
    ap (λ x. x ∷ listing f (i + 1) n) first ∙ ap (λ xs. g k ∷ xs) rest

pub listing_snoc : (f : ℕ → Job) (i n : ℕ) → listing f i (suc n) ≡ listing f i n ++ (f (i + n) ∷ [])
unfolding listing
listing_snoc f i zero = let e : i ≡ i + 0 = omega arith in ap (λ (k : ℕ). f k ∷ []) e
listing_snoc f i (suc n) =
    let e : i + 1 + n ≡ i + suc n = omega arith in
    ap (λ xs. f i ∷ xs)
      (listing_snoc f (i + 1) n ∙ ap (λ (k : ℕ). listing f (i + 1) n ++ (f k ∷ [])) e)

pub append_assoc : {A : Type 0} (xs ys zs : List A) → (xs ++ ys) ++ zs ≡ xs ++ (ys ++ zs)
append_assoc [] ys zs = refl
append_assoc (x ∷ xs) ys zs = ap (λ r. x ∷ r) (append_assoc xs ys zs)

pub shift_loop_below : (f : ℕ → Job) (left i j : ℕ) → j < i → shift_loop f left i j ≡ f j
unfolding shift_loop
shift_loop_below f zero i j less = refl
shift_loop_below f (suc left) i j less =
    let other : (j == i) ≡ false = ground arith in
    shift_loop_below (set_job f i (f (i + 1))) left (i + 1) j (omega arith) ∙ rw other

-- The loop moves each job of its range up by one.
pub shift_loop_moves :
    (f : ℕ → Job) (left i j : ℕ) → i ≤ j → j < i + left → shift_loop f left i j ≡ f (j + 1)
unfolding shift_loop
shift_loop_moves f zero i j lo hi = absurd (omega arith)
shift_loop_moves f (suc left) i j lo hi =
    let g = set_job f i (f (i + 1)) in
    elim (Bool-cases (j == i)) [
      | inl hit ↦
          let e : i ≡ j = sym ((==_iff j i).0 hit) in
          shift_loop_below g left (i + 1) j (omega arith) ∙ (rw hit (ap (λ (k : ℕ). f (k + 1)) e))
      | inr miss ↦
          let other : ((j + 1) == i) ≡ false = ground arith in
          shift_loop_moves g left (i + 1) j (ground arith) (omega arith) ∙ rw other
    ]
