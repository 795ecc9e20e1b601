-- ===== src/Server/Start/Loop.antt =====
-- The loop of the server from its start to the signal.
use lazy_tcp.Prelude.{ℕ, ◌≡◌, refl, Bool, Option, none, some, List, [], ◌∷◌, ok, Returns}
use lazy_tcp.Buf.{Buf}
use lazy_tcp.Server.{Round, Server, server_round}
use lazy_tcp.Server.Serving.{IsServing, IsRound, Writes, server_round-IsPass}
use lazy_tcp.Server.Start.{server_run}

-- Each pass is as `IsRound` says in the state that the passes before it leave.
pub data AreRounds : List Round → Server → Type 0 where
  no_rounds : {s : Server} → AreRounds [] s
  round :
      {r : Round} {rest : List Round} {s : Server}
      → IsRound r s
      → ((out : Option (ℕ × Buf)) (s' : Server)
          → server_round r s ≡ ok (out, s')
          → AreRounds rest s')
      → AreRounds (r ∷ rest) s

-- each packet that was written is one that a pass may write
pub data AllWritten : List (ℕ × Buf) → Type 0 where
  none_written : AllWritten []
  written :
      {p : ℕ × Buf} {ps : List (ℕ × Buf)} → Writes (some p) → AllWritten ps → AllWritten (p ∷ ps)

with_out :
    (out : Option (ℕ × Buf)) (ps : List (ℕ × Buf))
    → Writes out
    → AllWritten ps
    → AllWritten (elim out [ none ↦ ps | some p ↦ p ∷ ps ])
with_out none ps w all = all
with_out (some p) ps w all = written w all

server_run_step :
    (r : Round) (rest : List Round) (b : Bool) (s s' : Server) (out : Option (ℕ × Buf))
    (o : List (ℕ × Buf) × Server)
    → server_round r s ≡ ok (out, s')
    → server_run rest b s' ≡ ok o
    → server_run (r ∷ rest) b s ≡ ok (elim out [ none ↦ o.0 | some p ↦ p ∷ o.0 ], o.1)
unfolding server_run
server_run_step r rest b s s' out o pass more = rw (pass, more)

pub server_run-ok :
    (rounds : List Round) (b : Bool) (s : Server)
    → AreRounds rounds s
    → IsServing s
    → Returns (server_run rounds b s) λ o. AllWritten o.0 × IsServing o.1
unfolding server_run
server_run-ok _ b s no_rounds v =
    (_, refl, (none_written, record { size = v.size; bytes = v.bytes; good = v.good }))
server_run-ok _ b s (round {r} {rest} q later) v =
    let ((out, s'), pass, (v', w)) = server_round-IsPass r s v q in
    let (o, more, (all, end)) = server_run-ok rest b s' (later out s' pass) v' in
    (
      (elim out [ none ↦ o.0 | some p ↦ p ∷ o.0 ], o.1),
      server_run_step r rest b s s' out o pass more,
      (with_out out o.0 w all, end),
    )
