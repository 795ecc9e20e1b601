-- ===== src/Hash/Delete.antt =====
-- Deletion removes one entry of the abstract map, and frees its block.
use lazy_tcp.Prelude.{
  ℕ, ◌<◌, ◌≡◌, ◌≢◌, ◌↔◌, inl, inr, refl, arith, true, false, not, none, some, ◌==◌, Bool-cases,
  ==_iff, if-false, ok, ◌>>=◌, Returns, ap, sym, ◌∙◌, ◌+◌, ◌-◌, ◌^◌,
}
use mathlib.Core.Path.{subst}
use lazy_tcp.Tcb.{Ptr, Heap, ConId, write, load}
use lazy_tcp.Tcb.Ids.{id_at, id_at-write, block_at, load-ok}
use lazy_tcp.Vector.{Vector, vec_delete}
use lazy_tcp.Vector.Delete.{
  dropped, vec_delete-ok, dropped-IsVector, dropped_sound, dropped_complete,
}
use lazy_tcp.Hash.{Table, ht_size, u64, hash_id, hash_delete}
use lazy_tcp.Hash.Laws.{IsBucket, IsTable, Holds, hash_id-lt}
use lazy_tcp.Hash.Bucket.{
  with_bucket, IsTable-set, Holds-set_here, Holds-set_other, Holds-set_cases, IsBucket-same,
  Present-same, apart,
}

-- The entry of `a` is gone with its block `p`; the other entries stay.
pub record Deletes (s : Table) (a : ConId) (p : Ptr) (s' : Table) : Type 0 where
  pub valid : IsTable s'
  pub heap : s'.heap ≡ write s.heap p none
  pub entries : (id : ConId) (q : Ptr) → Holds s' id q ↔ (Holds s id q × (id ≢ a))

module _ (s : Table) (a : ConId) (valid : IsTable s) (ready : s.init ≡ true) (at : ℕ)
    (below : at < (s.buckets (hash_id a)).size)
    (named : id_at s.heap ((s.buckets (hash_id a)).slots at) ≡ some a) where
  abbrev v : Vector
  v = s.buckets (hash_id a)

  abbrev p : Ptr
  p = v.slots at

  abbrev heap' : Heap
  heap' = write s.heap p none

  bucket : IsBucket s.heap v (hash_id a)
  bucket = valid ready (hash_id a) (hash_id-lt a)

  -- the blocks of another bucket keep their identities
  unaffected :
      (j : ℕ)
      → j < ht_size
      → j ≢ hash_id a
      → (i : ℕ) → i < (s.buckets j).size
      → id_at heap' ((s.buckets j).slots i) ≡ id_at s.heap ((s.buckets j).slots i)
  unaffected j less ne i inside =
      id_at-write s.heap p none ((s.buckets j).slots i)
        (apart s.heap (s.buckets j) j p a (valid ready j less) named (λ e. ne (sym e)) i inside)

  dropped-IsBucket : IsBucket heap' (dropped v at) (hash_id a)
  dropped-IsBucket = record {
    vector = dropped-IsVector s.heap v bucket.vector at below;
    home = λ i less b e.
        let (f, _) =
          dropped_sound s.heap v bucket.vector at below a named b ((dropped v at).slots i)
            (record { index = i; above = omega arith; below = less; holds = refl; named = e }) in
        bucket.home f.index f.below b (ap (id_at s.heap) f.holds ∙ f.named);
  }

  abbrev after : Table
  after = with_bucket s heap' (hash_id a) (dropped v at) (u64 (s.size + 2 ^ 64 - 1))

  after-IsTable : IsTable after
  after-IsTable =
      IsTable-set s heap' (hash_id a) (dropped v at) (u64 (s.size + 2 ^ 64 - 1)) dropped-IsBucket
        λ j less ne.
          IsBucket-same s.heap heap' (s.buckets j) (unaffected j less ne) j (valid ready j less)

  module _ (id : ConId) (q : Ptr) where
    sound : Holds after id q → Holds s id q × (id ≢ a)
    sound holds =
        elim (Holds-set_cases s heap' (hash_id a) (dropped v at) (u64 (s.size + 2 ^ 64 - 1)) id q
          ready holds) [
            | inl (e, f) ↦
                let (f', ne) = dropped_sound s.heap v bucket.vector at below a named id q f in
                (record { init = ready; present = rw e f' }, ne)
            | inr (ne, f) ↦
                let same : (i : ℕ)
                    → i < (s.buckets (hash_id id)).size
                    → id_at s.heap ((s.buckets (hash_id id)).slots i)
                      ≡ id_at heap' ((s.buckets (hash_id id)).slots i) =
                  λ i less. sym (unaffected (hash_id id) (hash_id-lt id) ne i less) in
                (
                  record {
                    init = ready;
                    present = Present-same heap' s.heap (s.buckets (hash_id id)) same id q f;
                  },
                  λ e. ne (ap hash_id e),
                )
          ]

    complete : Holds s id q → id ≢ a → Holds after id q
    complete holds ne = elim (Bool-cases (hash_id id == hash_id a)) [
      | inl hit ↦
          let e = (==_iff (hash_id id) (hash_id a)).0 hit in
          Holds-set_here s heap' (hash_id a) (dropped v at) (u64 (s.size + 2 ^ 64 - 1)) id q ready e
            (dropped_complete s.heap v bucket.vector at below a named id q (rw e at holds.present)
              ne)
      | inr miss ↦
          let other : hash_id id ≢ hash_id a = ground arith in
          Holds-set_other s heap' (hash_id a) (dropped v at) (u64 (s.size + 2 ^ 64 - 1)) id q ready
            other
            (Present-same s.heap heap' (s.buckets (hash_id id))
              (unaffected (hash_id id) (hash_id-lt id) other) id q holds.present)
    ]

  slot_deleted : Returns (hash_delete s p) (Deletes s a p)
  unfolding hash_delete
  slot_deleted = (
    after,
    if-false _ _ on ∙ run,
    record {
      valid = after-IsTable;
      heap = refl;
      entries = λ id q. (sound id q, λ d. complete id q d.0 d.1);
    },
  )
    where
      on : not s.init ≡ false
      on = ap not ready

      run :
          (do
            t ← load s.heap p
            (h, v') ← vec_delete s.heap (s.buckets (hash_id t.id)) p
            ok (with_bucket s h (hash_id t.id) v' (u64 (s.size + 2 ^ 64 - 1))))
          ≡ ok after
      run =
          let (t, here, e) = block_at s.heap p named in
          rw (load-ok s.heap p here, e, vec_delete-ok s.heap v bucket.vector at below)

-- For a valid table that holds the block `p` under `a`, `hash_delete` meets no fault and removes
-- that entry and its block and no other entry.
pub hash_delete-Deletes :
    (s : Table) (a : ConId) (p : Ptr)
    → IsTable s
    → Holds s a p
    → Returns (hash_delete s p) (Deletes s a p)
hash_delete-Deletes s a p valid holds =
    let f = holds.present in
    subst (λ q. Returns (hash_delete s q) (Deletes s a q)) f.holds
      (slot_deleted s a valid holds.init f.index f.below (ap (id_at s.heap) f.holds ∙ f.named))
