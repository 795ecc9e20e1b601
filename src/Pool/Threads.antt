-- ===== src/Pool/Threads.antt =====
-- How many threads run once the pool is made.
use lazy_tcp.Prelude.{
  ℕ, zero, suc, ◌+◌, ◌≤◌, ◌<◌, ◌≡◌, inl, inr, refl, arith, Bool, true, false, Option, none, some,
  Bool-cases, if◌then◌else◌, ==_iff, ◌==◌,
}
use lazy_tcp.Pool.{create_loop, thread_pool_init}

-- The outcome of making `n` threads.
pub data Starts (mem : Bool) (created : ℕ → Bool) (n : ℕ) : Option ℕ × ℕ → Type 0 where
  all_run : mem ≡ true → ((i : ℕ) → i < n → created i ≡ true) → Starts mem created n (some n, n)
  some_run :
      (k : ℕ)
      → mem ≡ true
      → k < n
      → created k ≡ false
      → ((i : ℕ) → i < k → created i ≡ true)
      → Starts mem created n (none, k)
  no_memory : mem ≡ false → Starts mem created n (none, 0)

data Creates (created : ℕ → Bool) (left i : ℕ) : Bool × ℕ → Type 0 where
  done :
      (n : ℕ)
      → n ≡ i + left
      → ((j : ℕ) → i ≤ j → j < n → created j ≡ true)
      → Creates created left i (true, n)
  stopped :
      (k : ℕ)
      → k < i + left
      → created k ≡ false
      → ((j : ℕ) → i ≤ j → j < k → created j ≡ true)
      → Creates created left i (false, k)

create_loop-Creates :
    (created : ℕ → Bool) (left i : ℕ) → Creates created left i (create_loop created left i)
unfolding create_loop
create_loop-Creates created zero i = done i (omega arith) (λ j lo hi. absurd (omega arith))
create_loop-Creates created (suc left) i = elim (Bool-cases (created i)) [
  | inr lost ↦ rw lost (stopped i (omega arith) lost (λ j lo hi. absurd (omega arith)))
  | inl made ↦
      rw made
        (go made (create_loop created left (i + 1)) (create_loop-Creates created left (i + 1)))
]
  where
    from :
        created i ≡ true
        → (n : ℕ) → ((j : ℕ) → i + 1 ≤ j → j < n → created j ≡ true)
        → (j : ℕ) → i ≤ j
        → j < n
        → created j ≡ true
    from made n h j lo hi = elim (Bool-cases (j == i)) [
      | inl same ↦ rw ((==_iff j i).0 same) made
      | inr other ↦ h j (ground arith) hi
    ]

    go :
        created i ≡ true
        → (r : Bool × ℕ) → Creates created left (i + 1) r
        → Creates created (suc left) i r
    go made r (done n e h) = done n (omega arith) (from made n h)
    go made r (stopped k less lost h) = stopped k (omega arith) lost (from made k h)

-- For every outcome of the allocation and of each `pthread_create`, `thread_pool_init` starts all
-- threads and returns the pool, or returns NULL with exactly the threads before the first failure
-- running.
pub thread_pool_init-Starts :
    (mem : Bool) (created : ℕ → Bool) (n : ℕ)
    → Starts mem created n (thread_pool_init mem created n)
unfolding thread_pool_init
thread_pool_init-Starts false created n = no_memory refl
thread_pool_init-Starts true created n =
    go (create_loop created n 0) (create_loop-Creates created n 0)
  where
    go :
        (r : Bool × ℕ)
        → Creates created n 0 r
        → Starts true created n (if r.0 then (some n, r.1) else (none, r.1))
    go r (done k e h) =
        rw (let e' : k ≡ n = omega arith in e')
          (all_run refl (λ i less. h i (omega arith) (omega arith)))
    go r (stopped k less lost h) = some_run k refl (omega arith) lost (λ i lo. h i (omega arith) lo)
