-- ===== src/Server/Serving.antt =====
-- The server goes on for ever: no sequence of packets makes it meet a fault.
use lazy_tcp.Prelude.{
  ℕ, [], ◌∷◌, ◌≤◌, ◌≡◌, inl, inr, refl, arith, Bool, true, false, Option, none, some, ok, fault,
  Run, ap, Returns, if◌then◌else◌, Bool-cases, ◌==◌, ltb, leb, le→leb, sym, ◌∙◌,
}
use mathlib.Core.Path.{subst}
use lazy_tcp.Word.{u8, u16}
use lazy_tcp.Buf.{Buf, IsBytes, copy, with_bytes}
use lazy_tcp.Buf.Access.{memcpy-ok}
use lazy_tcp.Icmp.{mtu_size}
use lazy_tcp.Dispatch.Good.{IsGood}
use lazy_tcp.Dispatch.Safe.{IsReady}
use lazy_tcp.Network.Demux.{net_demux-Demuxes}
use lazy_tcp.Server.{
  Event, log_time, Round, Server, tun_read, tun_write, log_event, log_if_verbose, log_read,
  log_write, server_round,
}
use lazy_tcp.Server.Sent.{Demuxes-IsSent}

-- between two passes
pub record IsServing (s : Server) : Type 0 where
  pub size : s.tu.size ≡ mtu_size
  pub bytes : IsBytes s.tu.at
  pub good : IsGood s.table

-- What `read` and `malloc` guarantee of a pass: at most one MTU of bytes, and unused memory.
pub record IsRound (r : Round) (s : Server) : Type 0 where
  pub short : r.nread ≤ mtu_size
  pub bytes : IsBytes r.received
  pub ready : IsReady r.env s.table

log-ok :
    (verbose : Bool) (time : ℕ × ℕ) (tu : Buf) (len dir : ℕ) (written : Bool)
    → tu.size ≡ mtu_size
    → len ≤ mtu_size
    → Returns (log_if_verbose verbose time tu len dir written) λ v. Unit {0}
unfolding log_if_verbose log_event
log-ok false time tu len dir written size short = (_, refl, tt)
log-ok true time tu len dir written size short =
    let empty : Buf = record { size = mtu_size; at = λ _. 0 } in
    let event : Event = record {
      dir = u8 dir;
      timestamp_ns = log_time time;
      tu_len = u16 len;
      tu = with_bytes empty (copy empty.at 0 tu.at 0 (u16 len));
    } in
    ((event ∷ [], written), rw (memcpy-ok empty 0 tu 0 (u16 len) (omega arith) (omega arith)), tt)

-- What goes out to the device: nothing, or a packet of at most one MTU, inside the buffer.
pub data Writes : Option (ℕ × Buf) → Type 0 where
  nothing_sent : Writes none
  packet : (n : ℕ) (c : Buf) → n ≤ mtu_size → c.size ≡ mtu_size → Writes (some (n, c))

module _ (r : Round) (s : Server) (h : IsServing s) (q : IsRound r s) where
  abbrev tu : Buf
  tu = with_bytes s.tu (λ j. if ltb j r.nread then r.received j else s.tu.at j)

  tu-IsBytes : IsBytes tu.at
  tu-IsBytes j = elim (Bool-cases (ltb j r.nread)) [
    | inl inside ↦ rw inside (q.bytes j)
    | inr outside ↦ rw outside (h.bytes j)
  ]

  read_run : tun_read s.tu r.nread r.received ≡ ok tu
  unfolding tun_read
  read_run =
      let e : leb r.nread s.tu.size ≡ true =
        le→leb r.nread s.tu.size (omega (arith, h.size, q.short)) in
      rw e

  -- the result of a pass
  abbrev pub IsPass : Option (ℕ × Buf) × Server → Type 0
  IsPass o = IsServing o.1 × Writes o.0

  -- For a server as `IsServing` says and a pass that `IsRound` allows, the pass meets no fault,
  -- the server after it is as `IsServing` says, and what is written is at most one MTU.
  pub server_round-IsPass : Returns (server_round r s) IsPass
  unfolding server_round
  server_round-IsPass = elim (Bool-cases (r.nread == 0)) [
    | inl nothing ↦ (
      (none, record s { tu = tu }),
      rw (read_run, nothing),
      (record { size = h.size; bytes = tu-IsBytes; good = h.good }, nothing_sent),
    )
    | inr something ↦
        let ((_, v), logged, _) =
          log-ok s.verbose r.read_time tu r.nread log_read r.read_logged h.size q.short in
        let ((n, c, table), ran, (d, good)) =
          net_demux-Demuxes r.env tu r.nread s.table tu-IsBytes (omega (arith, h.size, q.short))
            (omega (arith, h.size)) (omega (arith, q.short)) h.good q.ready in
        let sent = Demuxes-IsSent tu r.nread tu-IsBytes q.short (n, c, table) d in
        let size : c.size ≡ mtu_size = sent.size ∙ h.size in
        let after : (w : Bool) → IsServing (record { tu = c; table = table; verbose = w }) =
          λ w. record { size = size; bytes = sent.bytes; good = good } in
        elim (Bool-cases (n == 0)) [
          | inl silent ↦ (
            (none, record { tu = c; table = table; verbose = v }),
            rw (read_run, something, logged, ran, silent),
            (after v, nothing_sent),
          )
          | inr answer ↦
              let ((_, w), logged', _) =
                log-ok v r.write_time c n log_write r.write_logged size sent.short in
              let e : leb n c.size ≡ true = le→leb n c.size (omega (arith, size, sent.short)) in
              (
                (some (n, c), record { tu = c; table = table; verbose = w }),
                rw (read_run, something, logged, ran, answer, logged', tun_write, e),
                (after w, packet n c sent.short size),
              )
        ]
  ]

-- the state in which `main` starts the loop: a buffer of zeros, and no connections
abbrev pub booted : (verbose : Bool) → Server
booted verbose = record {
  tu = record { size = mtu_size; at = λ _. 0 };
  table = record {
    heap = λ _. none;
    buckets = λ _. record { slots = λ _. 0; capacity = 0; size = 0 };
    size = 0;
    init = false;
  };
  verbose = verbose;
}

-- the states that the loop reaches
pub data Serves : Server → Type 0 where
  boots : (verbose : Bool) → Serves (booted verbose)
  passes :
      (s s' : Server) (r : Round) (out : Option (ℕ × Buf))
      → Serves s
      → IsRound r s
      → server_round r s ≡ ok (out, s')
      → Serves s'

pub booted-IsServing : (verbose : Bool) → IsServing (booted verbose)
booted-IsServing verbose = record {
  size = refl;
  bytes = λ i. omega arith;
  good = record { table = λ ready. cc ready; blocks = λ q t e. cc e };
}

Serves-IsServing : (s : Server) → Serves s → IsServing s
Serves-IsServing s (boots verbose) = booted-IsServing verbose
Serves-IsServing s (passes q s' r out reached round run) =
    let ((out', next), run', (h, _)) = server_round-IsPass r q (Serves-IsServing q reached) round in
    subst IsServing (next_of (sym run' ∙ run)) h
  where
    server_of : Server → Run (Option (ℕ × Buf) × Server) → Server
    server_of d fault = d
    server_of d (ok o) = o.1

    next_of : {a b : Option (ℕ × Buf) × Server} → ok a ≡ ok b → a.1 ≡ b.1
    next_of {a} e = ap (server_of a.1) e

-- From every state that the loop reaches, and for every pass that `IsRound` allows, the pass meets
-- no fault, the state after it is reached, and what is written is at most one MTU.
pub server_round_goes_on :
    (s : Server) (r : Round)
    → Serves s
    → IsRound r s
    → Returns (server_round r s) λ o. Serves o.1 × Writes o.0
server_round_goes_on s r reached round =
    let ((out, next), run, (_, writes)) =
      server_round-IsPass r s (Serves-IsServing s reached) round in
    ((out, next), run, (passes s next r out reached round run, writes))
