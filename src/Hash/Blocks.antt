-- ===== src/Hash/Blocks.antt =====
-- Changing the heap under the table: the blocks that it holds keep their identities.
use lazy_tcp.Prelude.{ℕ, ◌<◌, ◌≡◌, ◌↔◌, arith, some, sym, ◌∙◌, true, refl}
use lazy_tcp.Tcb.{Ptr, Heap, ConId}
use lazy_tcp.Tcb.Ids.{id_at}
use lazy_tcp.Vector.Laws.{Present}
use lazy_tcp.Hash.{Table, ht_size, hash_id}
use lazy_tcp.Hash.Laws.{IsTable, Holds, hash_id-lt}
use lazy_tcp.Hash.Bucket.{IsBucket-same, Present-same}

-- The heap `g` has the blocks of the table under their identities.
abbrev pub Covers : Table → Heap → Type 0
Covers s g = (id : ConId) (q : Ptr) → Holds s id q → id_at g q ≡ some id

abbrev pub with_heap : Table → Heap → Table
with_heap s g = record s { heap = g }

module _ (s : Table) (g : Heap) (valid : IsTable s) (covers : Covers s g) where
  same_ids :
      s.init ≡ true
      → (k : ℕ) → k < ht_size
      → (i : ℕ) → i < (s.buckets k).size
      → id_at g ((s.buckets k).slots i) ≡ id_at s.heap ((s.buckets k).slots i)
  same_ids ready k less i below =
      let bucket = valid ready k less in
      let (a, here) = bucket.vector.live i below in
      let home : hash_id a ≡ k = bucket.home i below a here in
      let at : Present s.heap (s.buckets k) a 0 ((s.buckets k).slots i) = record {
        index = i;
        above = omega arith;
        below = below;
        holds = refl;
        named = here;
      } in
      let holds : Holds s a ((s.buckets k).slots i) = record {
        init = ready;
        present = rw home at;
      } in
      covers a ((s.buckets k).slots i) holds ∙ sym here

  pub with_heap-IsTable : IsTable (with_heap s g)
  with_heap-IsTable ready k less =
      IsBucket-same s.heap g (s.buckets k) (same_ids ready k less) k (valid ready k less)

  pub with_heap-Holds : (id : ConId) (q : Ptr) → Holds (with_heap s g) id q ↔ Holds s id q
  with_heap-Holds id q = (
    λ holds.
        let v = s.buckets (hash_id id) in
        record {
          init = holds.init;
          present =
              Present-same g s.heap v
                (λ i below. sym (same_ids holds.init (hash_id id) (hash_id-lt id) i below)) id q
                holds.present;
        },
    λ holds. record {
      init = holds.init;
      present =
          Present-same s.heap g (s.buckets (hash_id id))
            (same_ids holds.init (hash_id id) (hash_id-lt id)) id q holds.present;
    },
  )
