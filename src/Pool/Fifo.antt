-- ===== src/Pool/Fifo.antt =====
-- Jobs are handled in the order in which they were taken in, however the threads interleave.
use mathlib.Core.Path.{subst}
use lazy_tcp.Prelude.{
  ◌≢◌, ℕ, suc, ◌+◌, ◌-◌, ◌≤◌, ◌<◌, ◌≡◌, inl, inr, refl, arith, true, false, not, ◌&&◌, List, [],
  ◌∷◌, ◌++◌, ◌==◌, ltb, Bool-cases, ap, sym, ◌∙◌,
}
use lazy_tcp.Pool.{
  Job, Pool, load_bound, set_job, job_enqueue, shift_loop, Action, wait, handle, exit,
  thread_pool_start, request_shutdown,
}
use lazy_tcp.Pool.Listing.{
  listing, pending, listing-same, listing_snoc, append_assoc, shift_loop_moves,
}

-- What the threads did so far: the jobs that were taken in, those that were handled, and the pool.
pub data Reaches : (taken handled : List Job) → Pool → Type 0 where
  start : (f : ℕ → Job) → Reaches [] [] (record { operations = f; job_count = 0; shutdown = false })
  enqueued :
      (taken handled : List Job) (s s' : Pool) (op : Job)
      → Reaches taken handled s
      → job_enqueue op s ≡ (false, s')
      → Reaches (taken ++ (op ∷ [])) handled s'
  was_busy :
      (taken handled : List Job) (s s' : Pool) (op : Job)
      → Reaches taken handled s
      → job_enqueue op s ≡ (true, s')
      → Reaches taken handled s'
  handles :
      (taken handled : List Job) (s s' : Pool) (op : Job)
      → Reaches taken handled s
      → thread_pool_start s ≡ (handle op, s')
      → Reaches taken (handled ++ (op ∷ [])) s'
  waits :
      (taken handled : List Job) (s s' : Pool)
      → Reaches taken handled s
      → thread_pool_start s ≡ (wait, s')
      → Reaches taken handled s'
  exits :
      (taken handled : List Job) (s s' : Pool)
      → Reaches taken handled s
      → thread_pool_start s ≡ (exit, s')
      → Reaches taken handled s'
  shuts_down :
      (taken handled : List Job) (s : Pool)
      → Reaches taken handled s
      → Reaches taken handled (request_shutdown s)

-- Taken in, a job is the last to wait.
enqueued_pending :
    (s s' : Pool) (op : Job)
    → job_enqueue op s ≡ (false, s')
    → (pending s' ≡ pending s ++ (op ∷ [])) × (s'.job_count < load_bound)
unfolding job_enqueue
enqueued_pending s s' op run = elim (Bool-cases (ltb s.job_count (load_bound - 1))) [
  | inr full ↦
      let e : (true, s) ≡ (false, s') = rw full at run in
      absurd (let bad : true ≡ false = ap (λ r. r.0) e in cc bad)
  | inl room ↦
      let f = set_job s.operations s.job_count op in
      let put : Pool = record s { operations = f; job_count = s.job_count + 1 } in
      let e : (false, put) ≡ (false, s') = rw room at run in
      let same : put ≡ s' = ap (λ r. r.1) e in
      let last : f (0 + s.job_count) ≡ op = ground arith in
      let old = listing-same f s.operations 0 0 s.job_count (λ j less. ground arith) in
      let count : s.job_count + 1 ≡ suc s.job_count = omega arith in
      (
        ap pending (sym same)
            ∙ ap (listing f 0) count
            ∙ listing_snoc f 0 s.job_count
            ∙ ap (λ x. listing f 0 s.job_count ++ (x ∷ [])) last
            ∙ ap (λ xs. xs ++ (op ∷ [])) old,
        rw (sym (ap (λ (q : Pool). q.job_count) same)) (ground (arith, room)),
      )
]

job_of : Job → Action → Job
job_of other wait = other
job_of other (handle op) = op
job_of other exit = other

-- After the shift the other jobs wait as before.
shifted_listing : (f : ℕ → Job) (k : ℕ) → listing (shift_loop f k 0) 0 k ≡ listing f 1 k
shifted_listing f k = listing-same (shift_loop f k 0) f 0 1 k (λ j less.
    let a : 0 + j ≡ j = omega arith in
    let b : j + 1 ≡ 1 + j = omega arith in
    ap (shift_loop f k 0) a ∙ shift_loop_moves f k 0 j (omega arith) (omega arith) ∙ ap f b)

-- The job that a worker handles is the first that waits.
handled_pending :
    (s s' : Pool) (op : Job)
    → thread_pool_start s ≡ (handle op, s')
    → (pending s ≡ op ∷ pending s') × (s'.job_count ≤ s.job_count)
unfolding thread_pool_start job_of
handled_pending s s' op run = elim (Bool-cases (s.job_count == 0 && not s.shutdown)) [
  | inl idle ↦
      let e : (wait, s) ≡ (handle op, s') = rw idle at run in
      absurd (let bad : wait ≡ handle op = ap (λ r. r.0) e in cc bad)
  | inr busy ↦ elim (Bool-cases (ltb 0 s.job_count)) [
    | inr over ↦
        let e : (exit, s) ≡ (handle op, s') = rw (busy, over) at run in
        absurd (let bad : exit ≡ handle op = ap (λ r. r.0) e in cc bad)
    | inl some_wait ↦
        let f = s.operations in
        let k = s.job_count - 1 in
        let moved : Pool = record s { operations = shift_loop f k 0; job_count = k } in
        let e : (handle (f 0), moved) ≡ (handle op, s') = rw (busy, some_wait) at run in
        let same : moved ≡ s' = ap (λ r. r.1) e in
        let first : f 0 ≡ op = ap (λ (r : Action × Pool). job_of op r.0) e in
        let count : s.job_count ≡ suc (s.job_count - 1) = ground (arith, some_wait) in
        let split : listing f 0 (suc k) ≡ f 0 ∷ listing f 1 k = unfold listing in refl in
        (
          ap (listing f 0) count
              ∙ split
              ∙ ap (λ x. x ∷ listing f 1 k) first
              ∙ ap (λ xs. op ∷ xs) (sym (shifted_listing f k) ∙ ap pending same),
          rw (sym (ap (λ (q : Pool). q.job_count) same)) (omega arith),
        )
  ]
]

unmoved :
    (s s' : Pool) (a : Action)
    → thread_pool_start s ≡ (a, s')
    → ((op : Job) → a ≢ handle op)
    → s' ≡ s
unfolding thread_pool_start
unmoved s s' a run other = elim (Bool-cases (s.job_count == 0 && not s.shutdown)) [
  | inl idle ↦ let e : (wait, s) ≡ (a, s') = rw idle at run in sym (ap (λ r. r.1) e)
  | inr busy ↦ elim (Bool-cases (ltb 0 s.job_count)) [
    | inr over ↦ let e : (exit, s) ≡ (a, s') = rw (busy, over) at run in sym (ap (λ r. r.1) e)
    | inl some_wait ↦ absurd (
        other (s.operations 0) (
          sym (
            ap (λ (r : Action × Pool). r.0)
              (let e : thread_pool_start s ≡ (
                handle (s.operations 0),
                record s {
                  operations = shift_loop s.operations (s.job_count - 1) 0;
                  job_count = s.job_count - 1;
                },
              ) =
                  rw (busy, some_wait) in
                sym e ∙ run))))
  ]
]

busy_unmoved : (s s' : Pool) (op : Job) → job_enqueue op s ≡ (true, s') → s' ≡ s
unfolding job_enqueue
busy_unmoved s s' op run = elim (Bool-cases (ltb s.job_count (load_bound - 1))) [
  | inr full ↦ let e : (true, s) ≡ (true, s') = rw full at run in sym (ap (λ r. r.1) e)
  | inl room ↦
      let put : Pool = record s {
        operations = set_job s.operations s.job_count op;
        job_count = s.job_count + 1;
      } in
      let e : (false, put) ≡ (true, s') = rw room at run in
      absurd (let bad : false ≡ true = ap (λ r. r.0) e in cc bad)
]

-- In every state that the threads reach, the jobs that were taken in are those that were handled,
-- in order, and then those that wait; and the queue stays inside its array.
pub Reaches-fifo :
    (taken handled : List Job) (s : Pool)
    → Reaches taken handled s
    → (taken ≡ handled ++ pending s) × (s.job_count < load_bound)
Reaches-fifo taken handled s (start f) = (unfold listing in refl, omega arith)
Reaches-fifo taken handled s (enqueued t h q q' op r run) =
    let (fifo, bound) = Reaches-fifo t h q r in
    let (last, bound') = enqueued_pending q q' op run in
    (
      ap (λ xs. xs ++ (op ∷ [])) fifo
          ∙ append_assoc h (pending q) (op ∷ [])
          ∙ ap (λ xs. h ++ xs) (sym last),
      bound',
    )
Reaches-fifo taken handled s (was_busy t h q q' op r run) =
    subst (λ x. (t ≡ h ++ pending x) × (x.job_count < load_bound)) (sym (busy_unmoved q q' op run))
      (Reaches-fifo t h q r)
Reaches-fifo taken handled s (handles t h q q' op r run) =
    let (fifo, bound) = Reaches-fifo t h q r in
    let (first, less) = handled_pending q q' op run in
    (fifo ∙ ap (λ xs. h ++ xs) first ∙ sym (append_assoc h (op ∷ []) (pending q')), omega arith)
Reaches-fifo taken handled s (waits t h q q' r run) =
    subst (λ x. (t ≡ h ++ pending x) × (x.job_count < load_bound))
      (sym (unmoved q q' wait run (λ op e. cc e))) (Reaches-fifo t h q r)
Reaches-fifo taken handled s (exits t h q q' r run) =
    subst (λ x. (t ≡ h ++ pending x) × (x.job_count < load_bound))
      (sym (unmoved q q' exit run (λ op e. cc e))) (Reaches-fifo t h q r)
Reaches-fifo taken handled s (shuts_down t h q r) = Reaches-fifo t h q r
