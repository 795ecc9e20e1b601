-- ===== src/Tests/Witnesses/Programs.antt =====
-- The theorems on the device, the queue and the server's loop.
use lazy_tcp.Prelude.{
  Option, ℕ, inl, inr, ap, some_inj, ◌<◌, ◌≡◌, refl, arith, Returns, true, false, some, none, [],
  ◌∷◌, ◌++◌,
}
use lazy_tcp.Device.{Sys, Calls, Tun, tun_init, configure, tun_ip_add, tun_ip_wake, tun_alloc}
use lazy_tcp.Pool.{Job, Pool, load_bound, job_enqueue, thread_pool_start}
use lazy_tcp.Pool.Listing.{pending}
use lazy_tcp.Pool.Fifo.{Reaches, start, enqueued, handles, Reaches-fifo}
use lazy_tcp.Pool.{thread_pool_init}
use lazy_tcp.Pool.Threads.{Starts, thread_pool_init-Starts}
use lazy_tcp.Prelude.{ltb}
use lazy_tcp.Server.{Round, server_round}
use lazy_tcp.Server.Serving.{
  IsServing, IsRound, Serves, boots, booted, Writes, server_round_goes_on,
}
use lazy_tcp.Server.Start.{Startup, main}
use lazy_tcp.Server.Start.Loop.{no_rounds, round}
use lazy_tcp.Server.Start.Ways.{IsStop, IsStartup, way}
use lazy_tcp.Server.Start.Stops.{main-IsStop}
use lazy_tcp.Tests.Packets.{syn_packet, syn_bytes, packet-IsBytes}
use lazy_tcp.Tests.Tables.{env}

-- the interface is brought up, and the log is attached
abbrev working_calls : Calls
working_calls = record {
  clone_fd = some 3;
  ioctl = true;
  tun_mem = some 100;
  name_mem = some 200;
  ip_mem = none;
  add = record { sock = some 4; inet = true; sent = true };
  wake = record { sock = some 4; inet = true; sent = true };
}

abbrev idle_sys : Sys
idle_sys = record { files = 0 ∷ 1 ∷ 2 ∷ []; blocks = [] }

abbrev job : ℕ → Job
job n = record { host_fd = 3; client_fd = n; kq = 0 }

abbrev empty_pool : Pool
empty_pool = record { operations = λ _. job 0; job_count = 0; shutdown = false }

-- two jobs were taken in, and a worker handled the first
abbrev two_jobs : Pool
two_jobs = (job_enqueue (job 8) (job_enqueue (job 7) empty_pool).1).1

abbrev one_job : Pool
one_job = (thread_pool_start two_jobs).1

one_job-Reaches : Reaches (job 7 ∷ job 8 ∷ []) (job 7 ∷ []) one_job
unfolding job_enqueue thread_pool_start
one_job-Reaches =
    handles (job 7 ∷ job 8 ∷ []) [] two_jobs one_job (job 7)
      (enqueued (job 7 ∷ []) [] (job_enqueue (job 7) empty_pool).1 two_jobs (job 8)
        (enqueued [] [] empty_pool (job_enqueue (job 7) empty_pool).1 (job 7) (start (λ _. job 0))
          refl)
        refl)
      refl

Reaches-fifo_example :
    (job 7 ∷ job 8 ∷ [] ≡ (job 7 ∷ []) ++ pending one_job) × (one_job.job_count < load_bound)
Reaches-fifo_example = Reaches-fifo (job 7 ∷ job 8 ∷ []) (job 7 ∷ []) one_job one_job-Reaches

-- the connection request comes in
abbrev first_round : Round
first_round = record {
  nread = 40;
  received = syn_packet.at;
  env = env;
  read_time = (3, 4);
  write_time = (3, 5);
  read_logged = true;
  write_logged = false;
}

first_round-IsRound : IsRound first_round (booted true)
first_round-IsRound = record {
  short = omega arith;
  bytes = packet-IsBytes syn_bytes;
  ready = record { fresh = λ p e. refl; stack = λ i. omega arith; room = λ ready. cc ready };
}

abbrev startup : Startup
startup = record {
  argc = 4;
  ip_len = 8;
  name_len = 4;
  vb = true;
  tun_calls = working_calls;
  fifo_end = some 4;
  mkfifo = true;
  log_open = some 5;
  rounds = first_round ∷ [];
  shutdown_logged = true;
}

startup-IsStartup : IsStartup startup idle_sys
unfolding tun_init configure tun_ip_add tun_ip_wake tun_alloc
startup-IsStartup = record {
  apart = λ tun e fd which same.
      let at : 3 ≡ tun.fd = ap tun_fd e in
      elim which [
        | inl f ↦ absurd (omega (arith, some_inj f))
        | inr f ↦ absurd (omega (arith, some_inj f))
      ];
  rounds = λ verbose.
      round
        (record {
          short = omega arith;
          bytes = packet-IsBytes syn_bytes;
          ready = record {
            fresh = λ p e. refl;
            stack = λ i. omega arith;
            room = λ ready. cc ready;
          };
        })
        (λ out s' run. no_rounds);
}
  where
    tun_fd : Option Tun → ℕ
    tun_fd none = 3
    tun_fd (some tun) = tun.fd

main-IsStop_example :
    Returns (main startup idle_sys) (IsStop startup idle_sys (way startup idle_sys))
main-IsStop_example = main-IsStop startup idle_sys startup-IsStartup

booted-IsServing : IsServing (booted true)
booted-IsServing = record {
  size = refl;
  bytes = λ i. omega arith;
  good = record { table = λ ready. cc ready; blocks = λ q t e. cc e };
}

server_round_goes_on_example :
    Returns (server_round first_round (booted true)) λ o. Serves o.1 × Writes o.0
server_round_goes_on_example =
    server_round_goes_on (booted true) first_round (boots true) first_round-IsRound

-- the third of four threads cannot be made
thread_pool_init-Starts_example :
    Starts true (λ i. ltb i 2) 4 (thread_pool_init true (λ i. ltb i 2) 4)
thread_pool_init-Starts_example = thread_pool_init-Starts true (λ i. ltb i 2) 4
