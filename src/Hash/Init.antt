-- ===== src/Hash/Init.antt =====
-- Setting the table up.
use lazy_tcp.Prelude.{
  ℕ, zero, suc, ◌+◌, ◌≤◌, ◌<◌, ◌≡◌, inl, inr, refl, arith, Bool, true, false, none, ◌==◌,
  Bool-cases, ==_iff, Option-cases, sym, ap, ◌∙◌,
}
use lazy_tcp.Tcb.{Heap}
use lazy_tcp.Vector.{Vector, Memory, def_cap, vec_init}
use lazy_tcp.Hash.Laws.{IsBucket}
use lazy_tcp.Hash.{Table, ht_size, set_bucket, init_loop, hash_init}

-- a bucket as `vec_init` leaves it
abbrev pub IsFresh : Vector → Type 0
IsFresh v = (v.size ≡ 0) × (v.capacity ≡ def_cap)

-- Buckets from `i` on are fresh, those below are as they were.
record Inits (bs : ℕ → Vector) (left i : ℕ) (bs' : ℕ → Vector) : Type 0 where
  fresh : (k : ℕ) → i ≤ k → k < i + left → IsFresh (bs' k)
  kept : (k : ℕ) → k < i → bs' k ≡ bs k

init_loop-Inits :
    (mems : ℕ → Memory) (bs : ℕ → Vector) (left i : ℕ)
    → (init_loop mems bs left i).0 ≡ true
    → Inits bs left i (init_loop mems bs left i).1
unfolding init_loop vec_init
init_loop-Inits mems bs zero i done = record {
  fresh = λ k lo hi. absurd (omega arith);
  kept = λ k less. refl;
}
init_loop-Inits mems bs (suc left) i done = elim (Option-cases (mems i)) [
  | inl e ↦ absurd (ground (arith, done))
  | inr (mem, e) ↦
      let v : Vector = record { slots = mem; capacity = def_cap; size = 0 } in
      let step : init_loop mems bs (suc left) i ≡ init_loop mems (set_bucket bs i v) left (i + 1) =
        rw (e, vec_init) in
      let rest =
        init_loop-Inits mems (set_bucket bs i v) left (i + 1) (ap (λ r. r.0) (sym step) ∙ done) in
      let here : set_bucket bs i v i ≡ v = ground arith in
      rw step (record {
        fresh = λ k lo hi. elim (Bool-cases (k == i)) [
          | inl same ↦
              let e' : k ≡ i = (==_iff k i).0 same in
              rw (e', rest.kept i (omega arith), here) (refl, refl)
          | inr other ↦ rest.fresh k (ground arith) (omega arith)
        ];
        kept = λ k less. rest.kept k (omega arith) ∙ (ground arith);
      })
]

-- The loop ends early only where one of the calls of `malloc` returned NULL.
init_loop-short :
    (mems : ℕ → Memory) (bs : ℕ → Vector) (left i : ℕ)
    → (init_loop mems bs left i).0 ≡ false
    → (k : ℕ) × (k < i + left) × (mems k ≡ none)
unfolding init_loop vec_init
init_loop-short mems bs zero i out = absurd (ground (arith, out))
init_loop-short mems bs (suc left) i out = elim (Option-cases (mems i)) [
  | inl e ↦ (i, omega arith, e)
  | inr (mem, e) ↦
      let v : Vector = record { slots = mem; capacity = def_cap; size = 0 } in
      let step : init_loop mems bs (suc left) i ≡ init_loop mems (set_bucket bs i v) left (i + 1) =
        rw (e, vec_init) in
      let (k, less, none_there) =
        init_loop-short mems (set_bucket bs i v) left (i + 1) (ap (λ r. r.0) (sym step) ∙ out) in
      (k, omega arith, none_there)
]

-- Set up, the table is valid and holds nothing; where memory ran out it stays as it was marked.
pub record IsInit (mems : ℕ → Memory) (s : Table) (r : Bool × Table) : Type 0 where
  pub heap : r.1.heap ≡ s.heap
  pub ready : r.0 ≡ true → r.1.init ≡ true
  pub fresh : r.0 ≡ true → (k : ℕ) → k < ht_size → IsFresh (r.1.buckets k)
  pub short : r.0 ≡ false → (k : ℕ) × (k < ht_size) × (mems k ≡ none)
  pub failed : r.0 ≡ false → r.1.init ≡ s.init

-- `hash_init` leaves the heap alone; where it succeeds the table is marked as set up and every
-- bucket is empty, and where it fails the mark is as it was.
pub hash_init-IsInit : (mems : ℕ → Memory) (s : Table) → IsInit mems s (hash_init mems s)
unfolding hash_init
hash_init-IsInit mems s = elim (Bool-cases (init_loop mems s.buckets ht_size 0).0) [
  | inl done ↦ rw done (record {
    heap = refl;
    ready = λ e. refl;
    fresh = λ e k less.
        (init_loop-Inits mems s.buckets ht_size 0 done).fresh k (omega arith) (omega arith);
    short = λ e. cc;
    failed = λ e. cc;
  })
  | inr out ↦ rw out (record {
    heap = refl;
    ready = λ e. cc;
    fresh = λ e. cc;
    short = λ e. init_loop-short mems s.buckets ht_size 0 out;
    failed = λ e. refl;
  })
]

pub IsFresh-IsBucket : (h : Heap) (v : Vector) (k : ℕ) → IsFresh v → IsBucket h v k
IsFresh-IsBucket h v k (empty, capacity) = record {
  vector = record {
    within = omega arith;
    roomy = omega arith;
    small = omega arith;
    live = λ i less. absurd (omega arith);
    distinct = λ i j less. absurd (omega arith);
  };
  home = λ i less. absurd (omega arith);
}
