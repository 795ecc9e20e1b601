-- ===== src/Vector.antt =====
-- The growing array of block pointers (refactor/network/tcp/vector.h,
-- refactor/network/tcp/vector.c). An index that is not below the capacity is a fault.
pub mod Laws
pub mod Push
pub mod Delete
pub mod Destroy
use lazy_tcp.Prelude.{ℕ, zero, suc, ◌+◌, ◌-◌, ◌*◌, Bool, true, false, Option, none, some}
use lazy_tcp.Prelude.{ltb, ◌==◌, if◌then◌else◌, Run, ok, fault, ◌>>=◌}
use lazy_tcp.Word.{u32}
use lazy_tcp.Tcb.{Ptr, Heap, ConId, load, free, tcb_id_match}

abbrev pub def_cap : ℕ
def_cap = 16

-- `slots` is the memory that `data` points to.
pub record Vector : Type 0 where
  pub slots : ℕ → Ptr
  pub capacity : ℕ
  pub size : ℕ

-- What `malloc` or `realloc` returns: NULL, or memory with whatever stands in it.
abbrev pub Memory : Type 0
Memory = Option (ℕ → Ptr)

abbrev pub put : (ℕ → Ptr) → ℕ → Ptr → ℕ → Ptr
put f i p j = if j == i then p else f j

-- `vec->data[i]`
unfoldable pub slot : Vector → ℕ → Run Ptr
slot v i = if ltb i v.capacity then ok (v.slots i) else fault

-- `vec->data[i] = p`
unfoldable pub set_slot : Vector → ℕ → Ptr → Run Vector
set_slot v i p = if ltb i v.capacity then ok (record v { slots = put v.slots i p }) else fault

unfoldable pub vec_init : Memory → Vector → Bool × Vector
vec_init none v = (false, v)
vec_init (some mem) v = (true, record { slots = mem; capacity = def_cap; size = 0 })

-- `realloc` keeps what the old block held
unfoldable pub grow : (ℕ → Ptr) → Vector → Vector
grow mem v = record v {
  slots = λ i. if ltb i v.capacity then v.slots i else mem i;
  capacity = u32 (v.capacity * 2);
}

append : Vector → Ptr → Run (Bool × Vector)
append v tcb = do v' ← set_slot v v.size tcb; ok (true, record v' { size = u32 (v.size + 1) })

unfoldable pub vec_push : Memory → Vector → Ptr → Run (Bool × Vector)
unfolding append
vec_push mem v tcb =
    if v.size == v.capacity
    then elim mem [ none ↦ ok (false, v) | some new ↦ append (grow new v) tcb ]
    else append v tcb

-- the loop from index `i`, with `left` rounds to go
unfoldable pub find_loop : Heap → Vector → ConId → (left i : ℕ) → Run (Option Ptr)
find_loop h v id zero i = ok none
find_loop h v id (suc left) i =
    let rest = find_loop h v id left (i + 1) in
    do p ← slot v i; t ← load h p; if tcb_id_match t.id id then ok (some p) else rest

unfoldable pub vec_find : Heap → Vector → ConId → Run (Option Ptr)
unfolding find_loop
vec_find h v id = find_loop h v id v.size 0

unfoldable pub vec_pop : Vector → Run (Option Ptr × Vector)
vec_pop v =
    if v.size == 0
    then ok (none, v)
    else do p ← slot v (v.size - 1); ok (some p, record v { size = v.size - 1 })

-- `free(vec->data[i])`, then the last pointer moves to `i`
unfoldable pub remove_at : Heap → Vector → ℕ → Run (Heap × Vector)
remove_at h v i = do
  p ← slot v i
  h' ← free h p
  last ← slot v (v.size - 1)
  v' ← set_slot v i last
  ok (h', record v' { size = v.size - 1 })

unfoldable pub delete_loop : Heap → Vector → Ptr → (left i : ℕ) → Run (Heap × Vector)
delete_loop h v tcb zero i = ok (h, v)
delete_loop h v tcb (suc left) i =
    let rest = delete_loop h v tcb left (i + 1) in
    do
      p ← slot v i
      t ← load h p
      wanted ← load h tcb
      if tcb_id_match t.id wanted.id then remove_at h v i else rest

unfoldable pub vec_delete : Heap → Vector → Ptr → Run (Heap × Vector)
unfolding delete_loop remove_at
vec_delete h v tcb = delete_loop h v tcb v.size 0

free_loop : Heap → Vector → (left i : ℕ) → Run Heap
free_loop h v zero i = ok h
free_loop h v (suc left) i = do p ← slot v i; h' ← free h p; free_loop h' v left (i + 1)

-- The memory of the pointers is freed, and `data` is NULL: with a capacity of 0 no slot can be read.
unfoldable pub vec_destroy : Heap → Vector → Run (Heap × Vector)
unfolding free_loop
vec_destroy h v = do
  h' ← free_loop h v v.size 0
  ok (h', record { slots = λ _. 0; size = 0; capacity = 0 })
