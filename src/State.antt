-- ===== src/State.antt =====
-- The state machine of a connection (refactor/network/tcp/tcb.c, `tcb_state_update`).
pub mod Connection
pub mod Update
use lazy_tcp.Prelude.{ℕ, ◌+◌, Bool, true, false, Option, none, some, ◌&&◌}
use lazy_tcp.Prelude.{◌==◌, if◌then◌else◌, Run, ok, fault, ◌>>=◌}
use lazy_tcp.Word.{u32, ntohs, ntohl, seq_lt, seq_geq}
use lazy_tcp.Buf.{Buf, load16, load32}
use lazy_tcp.Layout.{Tcp, tcp_at}
use lazy_tcp.Tcb.{Ptr, Heap, Tcb, Edge, ConState, write, load}
use lazy_tcp.Hash.{Table, hash_delete}
use lazy_tcp.Transport.{Env, tcp_gen_iss}

abbrev pub is_closed : ConState → Bool
is_closed ConState.con_closed = true
is_closed _ = false

-- a dereference of `tcb`; NULL is a fault
unfoldable pub deref : Heap → Option Ptr → Run (Ptr × Tcb)
deref h none = fault
deref h (some p) = do t ← load h p; ok (p, t)

abbrev pub set_tcb : Table → Ptr → Tcb → Table
set_tcb s p t = record s { heap = write s.heap p (some t) }

-- the block after `EVT_SYN`, from the segment's sequence number and window
unfoldable pub on_syn : (iss seq window : ℕ) → Tcb → Tcb
on_syn iss seq window t =
    let recv = t.recv in
    let send = t.send in
    record t {
      recv = record recv { irs = seq; next = u32 (seq + 1) };
      send =
          if is_closed t.state
          then record { unac = iss; next = u32 (iss + 1); window = window; iss = iss }
          else record send { window = window };
      state = ConState.con_syn_received;
    }

-- the block after the handshake's last acknowledgment
unfoldable pub on_ack : (ack_no : ℕ) → Tcb → Tcb
on_ack ack_no t =
    let send = t.send in
    record t { state = ConState.con_established; send = record send { unac = ack_no } }

-- whether a reset's sequence number lies in the receive window
unfoldable pub in_window : ℕ → Tcb → Bool
in_window seq_no t = seq_geq seq_no t.recv.next && seq_lt seq_no (u32 (t.recv.next + t.recv.window))

unfoldable pub tcb_state_update :
    Env → Buf → (tcp : ℕ) → (tcb : Option Ptr) → Edge → Table → Run (Bool × Table)
tcb_state_update env b tcp tcb Edge.evt_syn s = do
  (p, t) ← deref s.heap tcb
  seq ← load32 b (tcp + tcp_at Tcp.seq_num)
  window ← load16 b (tcp + tcp_at Tcp.window)
  ok (true, set_tcb s p (on_syn (tcp_gen_iss env) (ntohl seq) (ntohs window) t))
tcb_state_update env b tcp tcb Edge.evt_ack s = do
  ack ← load32 b (tcp + tcp_at Tcp.ack_num)
  (p, t) ← deref s.heap tcb
  if ntohl ack == t.send.next then ok (true, set_tcb s p (on_ack (ntohl ack) t)) else ok (false, s)
tcb_state_update env b tcp tcb Edge.evt_rst s = do
  seq ← load32 b (tcp + tcp_at Tcp.seq_num)
  (p, t) ← deref s.heap tcb
  if in_window (ntohl seq) t then (do s' ← hash_delete s p; ok (true, s')) else ok (false, s)
tcb_state_update env b tcp tcb _ s = ok (true, s)
