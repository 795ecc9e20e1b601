-- ===== src/Server/Start.antt =====
-- The start and the end of the server: `main` and `server_run` of refactor/main.c, and `log_init` of
-- refactor/log/log.c. What is printed and the handlers of signals are left out; `Startup` holds the
-- results of the calls.
pub mod Loop
pub mod Ways
pub mod Stops
use lazy_tcp.Prelude.{ℕ, Bool, true, false, Option, none, some, List, [], ◌∷◌, ltb, leb, ◌||◌, ◌&&◌}
use lazy_tcp.Prelude.{if◌then◌else◌, Run, ok, ◌>>=◌}
use lazy_tcp.Buf.{Buf}
use lazy_tcp.Device.{Sys, Calls, Tun, opened, close, tun_init, tun_destroy}
use lazy_tcp.Hash.{Table}
use lazy_tcp.Server.{Round, Server, server_round}
use lazy_tcp.Server.Serving.{booted}

-- `argc`, the lengths of `argv[1]` and `argv[2]`, whether `argv[3]` is "vb", the calls of
-- `tun_init`, those of `log_init` (`fopen`, `mkfifo`, `open`), the passes of the loop up to the
-- signal, and whether the last event is written
pub record Startup : Type 0 where
  pub argc : ℕ
  pub ip_len : ℕ
  pub name_len : ℕ
  pub vb : Bool
  pub tun_calls : Calls
  pub fifo_end : Option ℕ
  pub mkfifo : Bool
  pub log_open : Option ℕ
  pub rounds : List Round
  pub shutdown_logged : Bool

-- `INET_ADDRSTRLEN` of the system's headers, and `IFNAMSIZ`
abbrev pub inet_addrstrlen : ℕ
inet_addrstrlen = 16

abbrev pub ifnam_size : ℕ
ifnam_size = 16

-- the exit status, what was written to the device, whether the log is open at the end, the
-- connections then, whose blocks and buckets nothing frees, and the descriptors and the device's
-- memory
pub record Stop : Type 0 where
  pub success : Bool
  pub sent : List (ℕ × Buf)
  pub logging : Bool
  pub held : Option Table
  pub sys : Sys

-- `none` for the code's −1
unfoldable pub log_init : Startup → Sys → Option ℕ × Sys
log_init c s = elim c.fifo_end [
  | none ↦ (none, s)
  | some stream ↦
      if c.mkfifo
      then (elim c.log_open [
        | none ↦ (none, opened stream s)
        | some fd ↦ (some fd, opened fd (opened stream s))
      ])
      else (none, opened stream s)
]

-- The loop up to the signal. The event of the shutdown copies no packet; a failed write of it ends
-- the logging.
unfoldable pub server_run :
    List Round → (shutdown_logged : Bool) → Server → Run (List (ℕ × Buf) × Server)
server_run [] shutdown_logged s = ok ([], record s { verbose = s.verbose && shutdown_logged })
server_run (r ∷ rest) shutdown_logged s = do
  (out, s') ← server_round r s
  (sent, end) ← server_run rest shutdown_logged s'
  ok (elim out [ none ↦ sent | some p ↦ p ∷ sent ], end)

abbrev pub stopped : Sys → Stop
stopped s = record { success = false; sent = []; logging = false; held = none; sys = s }

-- `close(g_log_fd)`, if the log is still open
abbrev pub close_log : Option ℕ → (logging : Bool) → Sys → Sys
close_log none logging s = s
close_log (some fd) logging s = if logging then close fd s else s

abbrev pub is_open : Option ℕ → Bool
is_open none = false
is_open (some fd) = true

-- `main` from the call of `server_run` on
unfoldable pub run_server : Startup → Tun → (log_fd : Option ℕ) → Sys → Run Stop
run_server c tun log_fd s = do
  (sent, end) ← server_run c.rounds c.shutdown_logged (booted (is_open log_fd))
  ok (record {
    success = true;
    sent = sent;
    logging = end.verbose;
    held = some end.table;
    sys = tun_destroy (some tun) (close_log log_fd end.verbose s);
  })

-- `main` with the result of `log_init`
unfoldable pub after_log : Startup → Tun → Option ℕ × Sys → Run Stop
after_log c tun (none, s) = ok (stopped (tun_destroy (some tun) s))
after_log c tun (some fd, s) = run_server c tun (some fd) s

-- `main` with the device
unfoldable pub with_log : Startup → Tun → Sys → Run Stop
with_log c tun s =
    if leb 4 c.argc && c.vb then after_log c tun (log_init c s) else run_server c tun none s

unfoldable pub main : Startup → Sys → Run Stop
main c s =
    if ltb c.argc 3
    then ok (stopped s)
    else if leb inet_addrstrlen c.ip_len || leb ifnam_size c.name_len
    then ok (stopped s)
    else (let (made, s1) = tun_init c.tun_calls s in
        elim made [ none ↦ ok (stopped s1) | some tun ↦ with_log c tun s1 ])
