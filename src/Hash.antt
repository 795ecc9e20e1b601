-- ===== src/Hash.antt =====
-- The table of connections (refactor/network/tcp/hash.h, refactor/network/tcp/hash.c). The two
-- static variables of hash.c and the heap of blocks are one state.
pub mod Init
pub mod Laws
pub mod Bucket
pub mod Ready
pub mod Insert
pub mod Delete
pub mod Destroy
pub mod Blocks
use lazy_tcp.Prelude.{ℕ, zero, suc, ◌+◌, ◌-◌, ◌*◌, ◌/◌, ◌%◌, ◌^◌, bit_or, bit_xor}
use lazy_tcp.Prelude.{Bool, true, false, not, Option, none, some}
use lazy_tcp.Prelude.{◌==◌, if◌then◌else◌, Run, ok, ◌>>=◌}
use lazy_tcp.Word.{u32}
use lazy_tcp.Tcb.{Ptr, Heap, ConId, load}
use lazy_tcp.Vector.{Vector, Memory, vec_init, vec_find, vec_push, vec_delete, vec_destroy}

abbrev pub ht_size : ℕ
ht_size = 256

-- `g_con_table` and `g_tbl_init`, with the heap
pub record Table : Type 0 where
  pub heap : Heap
  pub buckets : ℕ → Vector
  pub size : ℕ
  pub init : Bool

abbrev pub set_bucket : (ℕ → Vector) → ℕ → Vector → ℕ → Vector
set_bucket bs i v j = if j == i then v else bs j

-- `size_t`
abbrev pub u64 : ℕ → ℕ
u64 n = n % 2 ^ 64

unfoldable pub hash_id : ConId → ℕ
hash_id id =
    let h0 = bit_xor id.src_ip id.dst_ip in
    let h1 = bit_xor h0 (bit_or (u32 (id.src_port * 2 ^ 16)) id.dst_port) in
    let h2 = u32 (h1 + u32 (h1 * 2 ^ 10)) in
    let h3 = bit_xor h2 (h2 / 2 ^ 6) in
    let h4 = u32 (h3 + u32 (h3 * 2 ^ 3)) in
    let h5 = bit_xor h4 (h4 / 2 ^ 11) in let h6 = u32 (h5 + u32 (h5 * 2 ^ 15)) in h6 % ht_size

-- the loop of `hash_init` from bucket `i`; `mems` is what each `malloc` returns
unfoldable pub init_loop : (ℕ → Memory) → (ℕ → Vector) → (left i : ℕ) → Bool × (ℕ → Vector)
init_loop mems bs zero i = (true, bs)
init_loop mems bs (suc left) i =
    let (done, v) = vec_init (mems i) (bs i) in
    let rest = init_loop mems (set_bucket bs i v) left (i + 1) in if done then rest else (false, bs)

unfoldable pub hash_init : (ℕ → Memory) → Table → Bool × Table
unfolding init_loop
hash_init mems s =
    let (done, bs) = init_loop mems s.buckets ht_size 0 in
    if done
    then (true, record s { buckets = bs; size = 0; init = true })
    else (false, record s { buckets = bs })

unfoldable pub hash_find : Table → ConId → Run (Option Ptr)
hash_find s id = if not s.init then ok none else vec_find s.heap (s.buckets (hash_id id)) id

unfoldable pub insert_ready : Memory → Table → Ptr → Run (Bool × Table)
insert_ready grow s tcb = do
  t ← load s.heap tcb
  let idx = hash_id t.id
  (pushed, v) ← vec_push grow (s.buckets idx) tcb
  let s' = record s { buckets = set_bucket s.buckets idx v }
  ok (if pushed then (true, record s' { size = u64 (s.size + 1) }) else (false, s'))

unfoldable pub hash_insert : (ℕ → Memory) → Memory → Table → Ptr → Run (Bool × Table)
unfolding insert_ready
hash_insert mems grow s tcb =
    if s.init
    then insert_ready grow s tcb
    else (let (done, s') = hash_init mems s in
        if done then insert_ready grow s' tcb else ok (false, s'))

unfoldable pub hash_delete : Table → Ptr → Run Table
hash_delete s tcb = if not s.init then ok s else do
  t ← load s.heap tcb
  let idx = hash_id t.id
  (h, v) ← vec_delete s.heap (s.buckets idx) tcb
  ok (record s { heap = h; buckets = set_bucket s.buckets idx v; size = u64 (s.size + 2 ^ 64 - 1) })

unfoldable destroy_loop : Heap → (ℕ → Vector) → (left i : ℕ) → Run (Heap × (ℕ → Vector))
destroy_loop h bs zero i = ok (h, bs)
destroy_loop h bs (suc left) i = do
  (h', v) ← vec_destroy h (bs i)
  destroy_loop h' (set_bucket bs i v) left (i + 1)

unfoldable pub hash_destroy : Table → Run Table
unfolding destroy_loop
hash_destroy s = if not s.init then ok s else do
  (h, bs) ← destroy_loop s.heap s.buckets ht_size 0
  ok (record { heap = h; buckets = bs; size = 0; init = false })
