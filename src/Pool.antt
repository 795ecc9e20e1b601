-- ===== src/Pool.antt =====
-- The queue of the older server's worker threads (thread_pool/thread_pool.h,
-- thread_pool/thread_pool.c). What a thread does while it holds the mutex is one step.
pub mod Listing
pub mod Fifo
pub mod Threads
use lazy_tcp.Prelude.{ℕ, zero, suc, ◌+◌, ◌-◌, Bool, true, false, not, ◌&&◌, Option, none, some}
use lazy_tcp.Prelude.{◌==◌, ltb, if◌then◌else◌}

abbrev pub load_bound : ℕ
load_bound = 1280

pub record Job : Type 0 where
  pub host_fd : ℕ
  pub client_fd : ℕ
  pub kq : ℕ

-- `operations`, `job_count` and `shutdown`
pub record Pool : Type 0 where
  pub operations : ℕ → Job
  pub job_count : ℕ
  pub shutdown : Bool

abbrev pub set_job : (ℕ → Job) → ℕ → Job → ℕ → Job
set_job f i op j = if j == i then op else f j

-- The result tells whether the pool was busy, so that the job was not taken.
unfoldable pub job_enqueue : Job → Pool → Bool × Pool
job_enqueue op s =
    if ltb s.job_count (load_bound - 1)
    then (
      false,
      record s { operations = set_job s.operations s.job_count op; job_count = s.job_count + 1 },
    )
    else (true, s)

-- the loop that moves the jobs up, from index `i`
unfoldable pub shift_loop : (ℕ → Job) → (left i : ℕ) → ℕ → Job
shift_loop f zero i = f
shift_loop f (suc left) i = shift_loop (set_job f i (f (i + 1))) left (i + 1)

-- what a worker does in one pass under the mutex
pub data Action : Type 0 where
  wait : Action
  handle : Job → Action
  exit : Action

unfoldable pub thread_pool_start : Pool → Action × Pool
unfolding shift_loop
thread_pool_start s =
    if s.job_count == 0 && not s.shutdown
    then (wait, s)
    else if ltb 0 s.job_count
    then (
      handle (s.operations 0),
      record s {
        operations = shift_loop s.operations (s.job_count - 1) 0;
        job_count = s.job_count - 1;
      },
    )
    else (exit, s)

-- the part of `thread_pool_destroy` under the mutex
abbrev pub request_shutdown : Pool → Pool
request_shutdown s = record s { shutdown = true }

-- the loop of `thread_pool_init` from thread `i`, whether each `pthread_create` succeeds: whether
-- all were created, and how many run
unfoldable pub create_loop : (created : ℕ → Bool) → (left i : ℕ) → Bool × ℕ
create_loop created zero i = (true, i)
create_loop created (suc left) i =
    let rest = create_loop created left (i + 1) in if created i then rest else (false, i)

-- the size of the pool, `none` for NULL, and the number of threads that run
unfoldable pub thread_pool_init :
    (mem : Bool) → (created : ℕ → Bool) → (num_threads : ℕ) → Option ℕ × ℕ
unfolding create_loop
thread_pool_init mem created num_threads =
    if mem
    then (let (done, running) = create_loop created num_threads 0 in
        if done then (some num_threads, running) else (none, running))
    else (none, 0)

-- the loop of `thread_pool_destroy` over `pthread_join`, which the first failure ends
unfoldable pub join_loop : (joined : ℕ → Bool) → (left i : ℕ) → Bool
join_loop joined zero i = true
join_loop joined (suc left) i =
    let rest = join_loop joined left (i + 1) in if joined i then rest else false

-- the result, 1 for a thread that was not joined, and the pool after it
unfoldable pub thread_pool_destroy : (joined : ℕ → Bool) → (num_threads : ℕ) → Pool → ℕ × Pool
unfolding join_loop
thread_pool_destroy joined num_threads s =
    (if join_loop joined num_threads 0 then 0 else 1, request_shutdown s)
