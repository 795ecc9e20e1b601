-- ===== src/Hash/Insert.antt =====
-- Insertion adds one entry to the abstract map.
use lazy_tcp.Prelude.{
  ℕ, ◌^◌, ◌<◌, ◌≡◌, inl, inr, some, refl, arith, Bool, true, false, Bool-cases, Run, if◌then◌else◌,
  if-true, if-false, ok, Returns, ◌∙◌,
}
use lazy_tcp.Tcb.{Ptr, ConId}
use lazy_tcp.Tcb.Ids.{id_at}
use lazy_tcp.Vector.{Memory}
use lazy_tcp.Hash.{Table, ht_size, hash_id, hash_init, insert_ready, hash_insert}
use lazy_tcp.Hash.Laws.{IsTable, Holds, hash_id-lt}
use lazy_tcp.Hash.Ready.{OutOfMemory, no_growth, no_bucket, Inserts, insert_ready-Inserts}
use lazy_tcp.Hash.Init.{IsFresh-IsBucket, IsInit, hash_init-IsInit}

-- No bucket is so large that doubling its capacity would wrap to 0.
abbrev pub HasRoom : Table → Type 0
HasRoom s = s.init ≡ true → (k : ℕ) → k < ht_size → (s.buckets k).capacity < 2 ^ 31

-- For a valid table with room, a block `p` known as `a` and an identity `a` that the table does
-- not hold, `hash_insert` meets no fault, whether or not the table was set up, and adds the entry
-- as `Inserts` says, or none, only where memory ran out as `OutOfMemory` says.
pub hash_insert-Inserts :
    (mems : ℕ → Memory) (mem : Memory) (s : Table) (p : Ptr) (a : ConId)
    → IsTable s
    → HasRoom s
    → id_at s.heap p ≡ some a
    → ((q : Ptr) → ¬ Holds s a q)
    → Returns (hash_insert mems mem s p) (Inserts mems mem s a p)
unfolding hash_insert
hash_insert-Inserts mems mem s p a valid room named absent = elim (Bool-cases s.init) [
  | inl ready ↦
      let (r, run, i) =
        insert_ready-Inserts s p a valid ready named mems mem
          (room ready (hash_id a) (hash_id-lt a)) absent in
      (r, if-true (insert_ready mem s p) cold_path ready ∙ run, i)
  | inr cold ↦
      let init = hash_init-IsInit mems s in
      let (r, run, i) = after_init cold (hash_init mems s) init in
      (r, if-false (insert_ready mem s p) cold_path cold ∙ run, i)
]
  where
    cold_path : Run (Bool × Table)
    cold_path =
        let (done, s') = hash_init mems s in if done then insert_ready mem s' p else ok (false, s')

    -- a table that is not set up holds nothing
    none_held : (id : ConId) (q : Ptr) → s.init ≡ false → ¬ Holds s id q
    none_held id q cold holds = cc (cold, holds.init)

    after_init :
        s.init ≡ false
        → (r : Bool × Table) → IsInit mems s r
        → Returns (if r.0 then insert_ready mem r.1 p else ok (false, r.1)) (Inserts mems mem s a p)
    after_init cold (false, s') init = (
      (false, s'),
      refl,
      record {
        valid = λ ready. cc (cold, ready, init.failed refl);
        heap = init.heap;
        added = λ e. cc;
        short = λ e. let (k, less, out) = init.short refl in no_bucket cold k less out;
        refused = λ e id q.
            (λ holds. cc (cold, holds.init, init.failed refl), λ holds. cc (cold, holds.init));
      },
    )
    after_init cold (true, s') init =
        let valid' : IsTable s' =
          λ ready k less. IsFresh-IsBucket s'.heap (s'.buckets k) k (init.fresh refl k less) in
        let empty : (id : ConId) (q : Ptr) → ¬ Holds s' id q = λ id q holds.
          let f = holds.present in
          absurd (omega (arith, f.below, (init.fresh refl (hash_id id) (hash_id-lt id)).0)) in
        let small : (s'.buckets (hash_id a)).capacity < 2 ^ 31 =
          omega (arith, (init.fresh refl (hash_id a) (hash_id-lt a)).1) in
        let never : ¬ OutOfMemory mems mem s' a = λ o. elim o [
          | no_growth _ full _ ↦ absurd (
              let fresh = init.fresh refl (hash_id a) (hash_id-lt a) in
              omega (arith, full, fresh.0, fresh.1))
          | no_bucket still k less out ↦ cc (still, init.ready refl)
        ] in
        let (r, run, i) =
          insert_ready-Inserts s' p a valid' (init.ready refl) (rw init.heap named) mems mem small
            (empty a) in
        (
          r,
          run,
          record {
            valid = i.valid;
            heap = i.heap ∙ init.heap;
            added = λ e id q. (
              λ holds. elim ((i.added e id q).0 holds) [
                | inl old ↦ absurd (empty id q old)
                | inr new ↦ inr new
              ],
              λ d. elim d [
                | inl old ↦ absurd (none_held id q cold old)
                | inr new ↦ (i.added e id q).1 (inr new)
              ],
            );
            short = λ e. absurd (never (i.short e));
            refused = λ e id q. (
              λ holds. absurd (empty id q ((i.refused e id q).0 holds)),
              λ holds. absurd (none_held id q cold holds),
            );
          },
        )
