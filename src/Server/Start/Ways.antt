-- ===== src/Server/Start/Ways.antt =====
-- How far the server's `main` gets, and what that leaves open.
use lazy_tcp.Prelude.{
  ℕ, ◌≡◌, ◌≢◌, ◌⊎◌, arith, Bool, true, false, ◌||◌, ◌&&◌, Option, none, some, [], ltb, leb, ◌==◌,
  if◌then◌else◌,
}
use lazy_tcp.Device.{Sys, Tun, erase, opened, release, close, tun_init, tun_destroy}
use lazy_tcp.Hash.{Table}
use lazy_tcp.Dispatch.Good.{IsGood}
use lazy_tcp.Server.Serving.{booted}
use lazy_tcp.Server.Start.{Startup, Stop, is_open}
use lazy_tcp.Server.Start.Loop.{AreRounds, AllWritten}

-- how far `main` gets: no device, the loop without a log, or the log
pub data Way : Type 0 where
  refused plain logged : Way

abbrev pub way_of : Startup → Option Tun → Way
way_of c none = Way.refused
way_of c (some tun) = if leb 4 c.argc && c.vb then Way.logged else Way.plain

abbrev pub way : Startup → Sys → Way
way c s =
    if ltb c.argc 3
    then Way.refused
    else if leb 16 c.ip_len || leb 16 c.name_len
    then Way.refused
    else way_of c (tun_init c.tun_calls s).0

abbrev pub log_opens : Startup → Bool
log_opens c = is_open c.fifo_end && (c.mkfifo && is_open c.log_open)

abbrev pub succeeds : Startup → Way → Bool
succeeds c Way.refused = false
succeeds c Way.plain = true
succeeds c Way.logged = log_opens c

-- what the log leaves open: the stream of `log_init`, and the log itself where a write failed
abbrev pub log_left : Option ℕ → (mkfifo : Bool) → Option ℕ → (logging : Bool) → Sys → Sys
log_left none mkfifo log_open logging s = s
log_left (some stream) false log_open logging s = opened stream s
log_left (some stream) true none logging s = opened stream s
log_left (some stream) true (some fd) logging s =
    if logging then opened stream s else opened fd (opened stream s)

abbrev pub left_open : Startup → Way → (logging : Bool) → Sys → Sys
left_open c Way.logged logging s = log_left c.fifo_end c.mkfifo c.log_open logging s
left_open c _ logging s = s

-- A stop of the server that started in `s`.
pub record IsStop (c : Startup) (s : Sys) (w : Way) (x : Stop) : Type 0 where
  pub success : x.success ≡ succeeds c w
  pub sys : x.sys ≡ left_open c w x.logging s
  pub sent : AllWritten x.sent
  pub quiet : x.success ≡ false → x.sent ≡ []
  pub held : (t : Table) → x.held ≡ some t → IsGood t

-- The descriptors of the stream and of the log are others than that of the device, and the passes are
-- as `AreRounds` says.
pub record IsStartup (c : Startup) (s : Sys) : Type 0 where
  pub apart :
      (tun : Tun)
      → (tun_init c.tun_calls s).0 ≡ some tun
      → (fd : ℕ) → (c.fifo_end ≡ some fd) ⊎ (c.log_open ≡ some fd)
      → fd ≢ tun.fd
  pub rounds : (verbose : Bool) → AreRounds c.rounds (booted verbose)

pub destroy_under :
    (tun : Tun) (fd : ℕ) (s : Sys)
    → fd ≢ tun.fd
    → tun_destroy (some tun) (opened fd s) ≡ opened fd (tun_destroy (some tun) s)
unfolding tun_destroy erase
destroy_under tun fd s ne =
    let miss : (tun.fd == fd) ≡ false = ground (arith, ne) in go tun.name tun.ip miss
  where
    go :
        (name ip : Option ℕ)
        → (tun.fd == fd) ≡ false
        → release (some tun.at) (close tun.fd (release ip (release name (opened fd s))))
          ≡ opened fd (release (some tun.at) (close tun.fd (release ip (release name s))))
    go none none miss = rw miss
    go none (some i) miss = rw miss
    go (some n) none miss = rw miss
    go (some n) (some i) miss = rw miss
