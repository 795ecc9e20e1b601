-- ===== src/Server.antt =====
-- The server's loop (refactor/main.c, `server_run`) with the reads and writes of the device
-- (`tun_read`, `tun_write` of refactor/tun/tun_device.c) and the log of each packet
-- (`log_event` of refactor/log/log.c).
pub mod Sent
pub mod Serving
pub mod Start
use lazy_tcp.Prelude.{
  ℕ, ◌+◌, ◌*◌, ◌%◌, ◌^◌, List, [], ◌∷◌, ◌==◌, ltb, leb, if◌then◌else◌, Bool, true, false, Option,
  none, some,
}
use lazy_tcp.Prelude.{Run, ok, fault, ◌>>=◌}
use lazy_tcp.Word.{u8, u16}
use lazy_tcp.Buf.{Buf, with_bytes, memcpy}
use lazy_tcp.Icmp.{mtu_size}
use lazy_tcp.Hash.{Table}
use lazy_tcp.Transport.{Env}
use lazy_tcp.Network.{net_demux}

-- What one pass of the loop takes from outside: the length that `read` returns, 0 where it fails,
-- the bytes that it stores, the clock at the two writes to the log, and whether they succeed. What
-- the log gets leaves the server.
pub record Round : Type 0 where
  pub nread : ℕ
  pub received : ℕ → ℕ
  pub env : Env
  pub read_time : ℕ × ℕ
  pub write_time : ℕ × ℕ
  pub read_logged : Bool
  pub write_logged : Bool

-- The buffer, the connections, and whether `g_log_fd` is open.
pub record Server : Type 0 where
  pub tu : Buf
  pub table : Table
  pub verbose : Bool

unfoldable pub tun_read : Buf → (nread : ℕ) → (ℕ → ℕ) → Run Buf
tun_read tu nread received =
    if leb nread tu.size
    then ok (with_bytes tu (λ j. if ltb j nread then received j else tu.at j))
    else fault

-- the bytes that go out: `none` where the length is past the buffer
unfoldable pub tun_write : Buf → (nwrite : ℕ) → Run (ℕ × Buf)
tun_write tu nwrite = if leb nwrite tu.size then ok (nwrite, tu) else fault

pub record Event : Type 0 where
  pub dir : ℕ
  pub timestamp_ns : ℕ
  pub tu_len : ℕ
  pub tu : Buf

-- `log_time`: seconds and nanoseconds of the clock
abbrev pub log_time : ℕ × ℕ → ℕ
log_time (tv_sec, tv_nsec) = (tv_sec * 1000000000 + tv_nsec) % 2 ^ 64

-- The event that is written, with the packet copied into an array of one MTU, and whether the log
-- stays open: a failed write ends the logging.
unfoldable pub log_event :
    (time : ℕ × ℕ) → Buf → (len dir : ℕ) → (written : Bool) → Run (Event × Bool)
log_event time tu len dir written = do
  array ← memcpy (record { size = mtu_size; at = λ _. 0 }) 0 tu 0 (u16 len)
  let event : Event = record {
    dir = u8 dir;
    timestamp_ns = log_time time;
    tu_len = u16 len;
    tu = array;
  }
  ok (event, written)

abbrev pub log_read : ℕ
log_read = 1

abbrev pub log_write : ℕ
log_write = 0

-- what is written to the log, if it is open, and whether it stays open
unfoldable pub log_if_verbose :
    (verbose : Bool)
    → (time : ℕ × ℕ) → Buf
    → (len dir : ℕ) → (written : Bool) → Run (List Event × Bool)
log_if_verbose false time tu len dir written = ok ([], false)
log_if_verbose true time tu len dir written = do
  (event, open_after) ← log_event time tu len dir written
  ok (event ∷ [], open_after)

-- One pass of the loop: what is written to the device, and the server after it.
unfoldable pub server_round : Round → Server → Run (Option (ℕ × Buf) × Server)
unfolding tun_read tun_write log_if_verbose
server_round r s = do
  tu ← tun_read s.tu r.nread r.received
  if r.nread == 0 then ok (none, record s { tu = tu }) else (do
    (_, verbose) ← log_if_verbose s.verbose r.read_time tu r.nread log_read r.read_logged
    (nwrite, tu', table) ← net_demux r.env tu r.nread s.table
    if nwrite == 0 then ok (none, record { tu = tu'; table = table; verbose = verbose }) else (do
      (_, verbose') ← log_if_verbose verbose r.write_time tu' nwrite log_write r.write_logged
      sent ← tun_write tu' nwrite
      ok (some sent, record { tu = tu'; table = table; verbose = verbose' })))
