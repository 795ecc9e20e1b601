-- ===== src/Hash/Ready.antt =====
-- Insertion into a table that is set up: the bucket of the identity is pushed to.
use lazy_tcp.Prelude.{
  ℕ, ◌+◌, ◌^◌, ◌<◌, ◌≡◌, ◌⊎◌, ◌↔◌, inl, inr, refl, arith, Bool, true, false, none, some, ◌==◌,
  Bool-cases, ==_iff, if◌then◌else◌, ok, Returns, ap, ◌∙◌,
}
use lazy_tcp.Tcb.{Ptr, ConId}
use lazy_tcp.Tcb.Ids.{id_at, block_at, load-ok}
use lazy_tcp.Vector.{Vector, Memory}
use lazy_tcp.Vector.Laws.{IsVector, Absent, Present}
use lazy_tcp.Vector.Push.{Pushes, pushed, vec_push-IsPushed, pushed_sound, pushed_kept, pushed_new}
use lazy_tcp.Hash.{Table, ht_size, u64, hash_id, insert_ready}
use lazy_tcp.Hash.Laws.{IsBucket, IsTable, Holds, hash_id-lt}
use lazy_tcp.Hash.Bucket.{
  with_bucket, IsTable-set, Holds-set_here, Holds-set_other, Holds-set_cases,
}

-- How memory runs out for an entry under `a`: the bucket is full and `realloc` returns NULL, or the
-- table is to be set up and one of the calls of `malloc` returns NULL.
pub data OutOfMemory (mems : ℕ → Memory) (mem : Memory) (s : Table) (a : ConId) : Type 0 where
  no_growth :
      s.init ≡ true
      → (s.buckets (hash_id a)).size ≡ (s.buckets (hash_id a)).capacity
      → mem ≡ none
      → OutOfMemory mems mem s a
  no_bucket : s.init ≡ false → (k : ℕ) → k < ht_size → mems k ≡ none → OutOfMemory mems mem s a

-- The entry `a ↦ p` is new in the table `r.1`, or memory ran out and the entries are the old ones.
pub record Inserts (mems : ℕ → Memory) (mem : Memory) (s : Table) (a : ConId) (p : Ptr)
    (r : Bool × Table) : Type 0 where
  pub valid : IsTable r.1
  pub heap : r.1.heap ≡ s.heap
  pub added :
      r.0 ≡ true → (id : ConId) (q : Ptr) → Holds r.1 id q ↔ (Holds s id q ⊎ ((id ≡ a) × (q ≡ p)))
  pub short : r.0 ≡ false → OutOfMemory mems mem s a
  pub refused : r.0 ≡ false → (id : ConId) (q : Ptr) → Holds r.1 id q ↔ Holds s id q

module _ (s : Table) (p : Ptr) (a : ConId) (valid : IsTable s) (ready : s.init ≡ true)
    (named : id_at s.heap p ≡ some a) where
  set_back :
      (v : Vector) (n : ℕ)
      → IsBucket s.heap v (hash_id a)
      → IsTable (with_bucket s s.heap (hash_id a) v n)
  set_back v n b = IsTable-set s s.heap (hash_id a) v n b (λ j less ne. valid ready j less)

  pushed_home :
      (v' : Vector)
      → IsVector s.heap v'
      → v'.size ≡ (s.buckets (hash_id a)).size + 1
      → v'.slots (s.buckets (hash_id a)).size ≡ p
      → ((i : ℕ) → i < (s.buckets (hash_id a)).size → v'.slots i ≡ (s.buckets (hash_id a)).slots i)
      → IsBucket s.heap v' (hash_id a)
  pushed_home v' vector size last same = record {
    vector = vector;
    home = λ i less b e.
        elim (pushed_sound s.heap (s.buckets (hash_id a)) v' p a b (v'.slots i) named size last same
          (record { index = i; above = omega arith; below = less; holds = refl; named = e })) [
            | inl f ↦
                (valid ready (hash_id a) (hash_id-lt a)).home f.index f.below b
                  (ap (id_at s.heap) f.holds ∙ e)
            | inr (e', _) ↦ ap hash_id e'
          ];
  }

  module _ (id : ConId) (q : Ptr) where
    -- an entry of the old table, from the bucket of `a`
    kept_here :
        hash_id id ≡ hash_id a → Present s.heap (s.buckets (hash_id a)) id 0 q → Holds s id q
    kept_here e f = record { init = ready; present = rw e f }

    here_of : hash_id id ≡ hash_id a → Holds s id q → Present s.heap (s.buckets (hash_id a)) id 0 q
    here_of e holds = rw e at holds.present

    added_iff :
        (v' : Vector) (n : ℕ)
        → v'.size ≡ (s.buckets (hash_id a)).size + 1
        → v'.slots (s.buckets (hash_id a)).size ≡ p
        → ((i : ℕ)
            → i < (s.buckets (hash_id a)).size
            → v'.slots i ≡ (s.buckets (hash_id a)).slots i)
        → Holds (with_bucket s s.heap (hash_id a) v' n) id q ↔ (Holds s id q ⊎ ((id ≡ a) × (q ≡ p)))
    added_iff v' n size last same = (sound, complete)
      where
        v : Vector
        v = s.buckets (hash_id a)

        sound :
            Holds (with_bucket s s.heap (hash_id a) v' n) id q → Holds s id q ⊎ ((id ≡ a) × (q ≡ p))
        sound holds = elim (Holds-set_cases s s.heap (hash_id a) v' n id q ready holds) [
          | inl (e, f) ↦ elim (pushed_sound s.heap v v' p a id q named size last same f) [
            | inl f' ↦ inl (kept_here e f')
            | inr new ↦ inr new
          ]
          | inr (ne, f) ↦ inl (record { init = ready; present = f })
        ]

        old : Holds s id q → Holds (with_bucket s s.heap (hash_id a) v' n) id q
        old holds = elim (Bool-cases (hash_id id == hash_id a)) [
          | inl hit ↦
              let e = (==_iff (hash_id id) (hash_id a)).0 hit in
              Holds-set_here s s.heap (hash_id a) v' n id q ready e
                (pushed_kept s.heap v v' p a id q named size last same (here_of e holds))
          | inr miss ↦
              Holds-set_other s s.heap (hash_id a) v' n id q ready (ground arith) holds.present
        ]

        complete :
            Holds s id q ⊎ ((id ≡ a) × (q ≡ p)) → Holds (with_bucket s s.heap (hash_id a) v' n) id q
        complete (inl holds) = old holds
        complete (inr (e, e')) =
            Holds-set_here s s.heap (hash_id a) v' n id q ready (ap hash_id e)
              (rw (e, e') (pushed_new s.heap v v' p a named size last))

    refused_iff :
        (n : ℕ)
        → Holds (with_bucket s s.heap (hash_id a) (s.buckets (hash_id a)) n) id q ↔ Holds s id q
    refused_iff n = (sound, complete)
      where
        v : Vector
        v = s.buckets (hash_id a)

        sound : Holds (with_bucket s s.heap (hash_id a) v n) id q → Holds s id q
        sound holds = elim (Holds-set_cases s s.heap (hash_id a) v n id q ready holds) [
          | inl (e, f) ↦ kept_here e f
          | inr (ne, f) ↦ record { init = ready; present = f }
        ]

        complete : Holds s id q → Holds (with_bucket s s.heap (hash_id a) v n) id q
        complete holds = elim (Bool-cases (hash_id id == hash_id a)) [
          | inl hit ↦
              let e = (==_iff (hash_id id) (hash_id a)).0 hit in
              Holds-set_here s s.heap (hash_id a) v n id q ready e (here_of e holds)
          | inr miss ↦
              Holds-set_other s s.heap (hash_id a) v n id q ready (ground arith) holds.present
        ]

  outcome :
      (mems : ℕ → Memory) (mem : Memory) {r : Bool × Vector}
      → Pushes mem (s.buckets (hash_id a)) p r
      → IsVector s.heap r.1
      → Inserts mems mem s a p (
          if r.0
          then (true, with_bucket s s.heap (hash_id a) r.1 (u64 (s.size + 1)))
          else (false, with_bucket s s.heap (hash_id a) r.1 s.size))
  outcome mems mem (pushed v' size last same) vector = record {
    valid = set_back v' (u64 (s.size + 1)) (pushed_home v' vector size last same);
    heap = refl;
    added = λ e id q. added_iff id q v' (u64 (s.size + 1)) size last same;
    short = λ e. cc;
    refused = λ e. cc;
  }
  outcome mems mem (Pushes.refused full out) vector = record {
    valid = set_back (s.buckets (hash_id a)) s.size (valid ready (hash_id a) (hash_id-lt a));
    heap = refl;
    added = λ e. cc;
    short = λ e. no_growth ready full out;
    refused = λ e id q. refused_iff id q s.size;
  }

  pub insert_ready-Inserts :
      (mems : ℕ → Memory) (mem : Memory)
      → (s.buckets (hash_id a)).capacity < 2 ^ 31
      → ((q : Ptr) → ¬ Holds s a q)
      → Returns (insert_ready mem s p) (Inserts mems mem s a p)
  unfolding insert_ready
  insert_ready-Inserts mems mem room absent =
      let v = s.buckets (hash_id a) in
      let (t, at, e) = block_at s.heap p named in
      let bucket = valid ready (hash_id a) (hash_id-lt a) in
      let missing : Absent s.heap v a 0 = λ j lo less here. absent (v.slots j) (record {
        init = ready;
        present = record { index = j; above = lo; below = less; holds = refl; named = here };
      }) in
      let (r, run, result) = vec_push-IsPushed s.heap v p a bucket.vector named missing mem room in
      let step : insert_ready mem s p
          ≡ ok (
              if r.0
              then (true, with_bucket s s.heap (hash_id a) r.1 (u64 (s.size + 1)))
              else (false, with_bucket s s.heap (hash_id a) r.1 s.size)) =
        rw (load-ok s.heap p at, e, run) in
      (_, step, outcome mems mem result.outcome result.valid)
