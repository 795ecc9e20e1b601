-- ===== src/Dispatch/Find.antt =====
-- The block of a segment's connection: found, or made.
use lazy_tcp.Prelude.{
  ◌≡◌, ◌≢◌, ◌⊎◌, ◌↔◌, inl, inr, refl, arith, true, false, Option, some, none, Bool-cases, ==_iff,
  ◌==◌, ok, Returns, sym, ◌∙◌, ap, fun_ext,
}
use lazy_tcp.Tcb.{Ptr, Heap, ConId, write, free, new_tcb, tcb_init}
use lazy_tcp.Tcb.Ids.{id_at, free-ok, id_at-write, id_at-ok}
use lazy_tcp.Hash.{Table, hash_insert}
use lazy_tcp.Hash.Laws.{IsTable, Holds, Looks, nothing, block, hash_find-Looks}
use lazy_tcp.Hash.Ready.{OutOfMemory, no_growth, no_bucket, Inserts}
use lazy_tcp.Hash.Insert.{HasRoom, hash_insert-Inserts}
use lazy_tcp.Hash.Blocks.{Covers, with_heap, with_heap-IsTable, with_heap-Holds}
use lazy_tcp.Transport.{Env}
use lazy_tcp.Dispatch.{insert_new, find_or_insert}

-- `malloc` returns memory that is not in use.
abbrev pub IsFreshMem : Env → Heap → Type 0
IsFreshMem env h = (p : Ptr) → env.tcb_mem ≡ some p → h p ≡ none

-- How memory runs out for the block of `id`: for the block itself, or for its entry.
abbrev pub IsShort : Env → ConId → Table → Type 0
IsShort env id s = (env.tcb_mem ≡ none) ⊎ OutOfMemory env.bucket_mem env.grow_mem s id

-- The block that was there; or a new closed one, the table's only new entry; or none, with the
-- entries as they were, where memory ran out.
pub data Obtains (env : Env) (id : ConId) (s : Table) : Option Ptr × Table → Type 0 where
  known : (p : Ptr) → Holds s id p → Obtains env id s (some p, s)
  made :
      (p : Ptr) (s' : Table)
      → env.tcb_mem ≡ some p
      → ((q : Ptr) → ¬ Holds s id q)
      → s'.heap ≡ write s.heap p (some (new_tcb id))
      → IsTable s'
      → ((a : ConId) (q : Ptr) → Holds s' a q ↔ (Holds s a q ⊎ ((a ≡ id) × (q ≡ p))))
      → Obtains env id s (some p, s')
  out_of_memory :
      (s' : Table)
      → IsShort env id s
      → ((q : Ptr) → ¬ Holds s id q)
      → s'.heap ≡ s.heap
      → IsTable s'
      → ((a : ConId) (q : Ptr) → Holds s' a q ↔ Holds s a q)
      → Obtains env id s (none, s')

module _ (env : Env) (id : ConId) (s : Table) (valid : IsTable s) (room : HasRoom s)
    (absent : (q : Ptr) → ¬ Holds s id q) (p : Ptr) (mem : env.tcb_mem ≡ some p)
    (dead : s.heap p ≡ none) where
  grown : Heap
  grown = write s.heap p (some (new_tcb id))

  -- a block of the table is not the new one
  held_apart : (a : ConId) (q : Ptr) → Holds s a q → q ≢ p
  held_apart a q holds e =
      let at : id_at s.heap p ≡ some a = ap (id_at s.heap) (sym e) ∙ holds.present.named in
      absurd (let none_there : id_at s.heap p ≡ none = rw (dead, id_at) in ground arith)

  grown-Covers : Covers s grown
  unfolding grown
  grown-Covers a q holds =
      id_at-write s.heap p (some (new_tcb id)) q (held_apart a q holds) ∙ holds.present.named

  grown_here : grown p ≡ some (new_tcb id)
  unfolding grown
  grown_here = let e : (p == p) ≡ true = ground arith in rw e

  grown_named : id_at grown p ≡ some id
  unfolding new_tcb
  grown_named = id_at-ok grown p grown_here

  -- where insertion fails, the new block is given back
  given_back : write grown p none ≡ s.heap
  unfolding grown
  given_back = fun_ext λ q. elim (Bool-cases (q == p)) [
    | inl same ↦ let e : q ≡ p = (==_iff q p).0 same in rw same (sym dead ∙ ap s.heap (sym e))
    | inr other ↦ rw other
  ]

  grown_alive : free grown p ≡ ok s.heap
  grown_alive = free-ok grown p grown_here ∙ ap ok given_back

  same_entries : (a : ConId) (q : Ptr) → Holds (with_heap s grown) a q ↔ Holds s a q
  same_entries = with_heap-Holds s grown valid grown-Covers

  inserted :
      Returns
        (hash_insert env.bucket_mem env.grow_mem (with_heap s grown) p)
        (Inserts env.bucket_mem env.grow_mem (with_heap s grown) id p)
  inserted =
      hash_insert-Inserts env.bucket_mem env.grow_mem (with_heap s grown) p id
        (with_heap-IsTable s grown valid grown-Covers) room grown_named
        (λ q holds. absent q ((same_entries id q).0 holds))

  same_shortage :
      OutOfMemory env.bucket_mem env.grow_mem (with_heap s grown) id
      → OutOfMemory env.bucket_mem env.grow_mem s id
  same_shortage (no_growth ready full out) = no_growth ready full out
  same_shortage (no_bucket cold k less out) = no_bucket cold k less out

  given_back_table :
      (s' : Table)
      → Inserts env.bucket_mem env.grow_mem (with_heap s grown) id p (false, s')
      → Obtains env id s (none, with_heap s' s.heap)
  given_back_table s' i =
      let entries : (a : ConId) (q : Ptr) → Holds s' a q ↔ Holds s a q = λ a q.
        let f = i.refused refl a q in
        let g = same_entries a q in (λ holds. g.0 (f.0 holds), λ holds. f.1 (g.1 holds)) in
      let covers : Covers s' s.heap = λ a q holds. ((entries a q).0 holds).present.named in
      out_of_memory (with_heap s' s.heap) (inr (same_shortage (i.short refl))) absent refl
        (with_heap-IsTable s' s.heap i.valid covers)
        (λ a q.
          let f = with_heap-Holds s' s.heap i.valid covers a q in
          (λ holds. (entries a q).0 (f.0 holds), λ holds. f.1 ((entries a q).1 holds)))

  made_table :
      (s' : Table)
      → Inserts env.bucket_mem env.grow_mem (with_heap s grown) id p (true, s')
      → Obtains env id s (some p, s')
  unfolding grown
  made_table s' i = made p s' mem absent i.heap i.valid (λ a q.
      let f = i.added refl a q in
      let g = same_entries a q in
      (
        λ holds. elim (f.0 holds) [ inl old ↦ inl (g.0 old) | inr new ↦ inr new ],
        λ d. elim d [ inl old ↦ f.1 (inl (g.1 old)) | inr new ↦ f.1 (inr new) ],
      ))

  insert_new-Obtains : Returns (insert_new env (some p, grown) s) (Obtains env id s)
  unfolding insert_new
  insert_new-Obtains = finish inserted
    where
      finish :
          Returns
            (hash_insert env.bucket_mem env.grow_mem (with_heap s grown) p)
            (Inserts env.bucket_mem env.grow_mem (with_heap s grown) id p)
          → Returns (insert_new env (some p, grown) s) (Obtains env id s)
      finish ((true, s'), run, i) = ((some p, s'), rw run, made_table s' i)
      finish ((false, s'), run, i) =
          ((none, with_heap s' s.heap), rw (run, i.heap, grown_alive), given_back_table s' i)

-- For a valid table with room and fresh memory, the block of a segment's connection is found or
-- made without a fault, or there is none where memory ran out as `IsShort` says, and the entries
-- of the table are as `Obtains` says.
pub find_or_insert-Obtains :
    (env : Env) (id : ConId) (s : Table)
    → IsTable s
    → HasRoom s
    → IsFreshMem env s.heap
    → Returns (find_or_insert env id s) (Obtains env id s)
unfolding find_or_insert insert_new tcb_init grown
find_or_insert-Obtains env id s valid room fresh =
    let (r, run, looks) = hash_find-Looks s id valid in rw run (finish r looks)
  where
    alloc :
        ((q : Ptr) → ¬ Holds s id q)
        → (mem : Option Ptr) → env.tcb_mem ≡ mem
        → Returns (insert_new env (tcb_init mem id s.heap) s) (Obtains env id s)
    alloc absent none e = (
      (none, s),
      refl,
      out_of_memory s (inl e) absent refl valid (λ a q. (λ holds. holds, λ holds. holds)),
    )
    alloc absent (some p) e = insert_new-Obtains env id s valid room absent p e (fresh p e)

    finish :
        (r : Option Ptr)
        → Looks s id r
        → Returns
            (elim r [
              | some p ↦ ok (some p, s)
              | none ↦ insert_new env (tcb_init env.tcb_mem id s.heap) s
            ])
            (Obtains env id s)
    finish none (nothing absent) = alloc absent env.tcb_mem refl
    finish (some q) (block p holds) = ((some p, s), refl, known p holds)
