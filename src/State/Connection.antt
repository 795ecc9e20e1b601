-- ===== src/State/Connection.antt =====
-- What holds of every block that the handler keeps.
use lazy_tcp.Prelude.{
  ℕ, ◌+◌, ◌%◌, ◌^◌, ◌<◌, ◌≤◌, ◌≡◌, ◌≢◌, refl, arith, true, false, if◌then◌else◌, ap, ◌∙◌, some,
  none, inl, inr, Bool-cases, ◌==◌, some_inj, sym,
}
use lazy_tcp.Word.{u32}
use lazy_tcp.Tcb.{Ptr, Heap, Tcb, ConId, ConState, ReceiveState, tcp_win_def, write, new_tcb}
use lazy_tcp.State.{is_closed, on_syn, on_ack}

-- The numbers of RFC 793 once both sides' initial numbers are known: each side's next number is
-- one past its initial one.
pub record IsSynchronized (t : Tcb) : Type 0 where
  pub send_next : t.send.next ≡ u32 (t.send.iss + 1)
  pub recv_next : t.recv.next ≡ u32 (t.recv.irs + 1)

-- the numbers of our side when a request opens the connection
pub record IsOpened (number : ℕ) (u : Tcb) : Type 0 where
  pub iss : u.send.iss ≡ number
  pub unac : u.send.unac ≡ number
  pub next : u.send.next ≡ (number + 1) % 2 ^ 32

-- The block `u` that a request with the number `seq` and the window leads to from `t`: it is in
-- SYN_RECEIVED and expects the number behind the request; a closed block takes `iss` as its own
-- number, any other keeps its numbers.
pub record IsRequested (iss seq window : ℕ) (t u : Tcb) : Type 0 where
  pub id : u.id ≡ t.id
  pub state : u.state ≡ ConState.con_syn_received
  pub irs : u.recv.irs ≡ seq
  pub recv_next : u.recv.next ≡ (seq + 1) % 2 ^ 32
  pub recv_window : u.recv.window ≡ t.recv.window
  pub send_window : u.send.window ≡ window
  pub opened : t.state ≡ ConState.con_closed → IsOpened iss u
  pub kept :
      t.state ≢ ConState.con_closed
      → (u.send.iss ≡ t.send.iss) × (u.send.unac ≡ t.send.unac) × (u.send.next ≡ t.send.next)

-- The block `u` that the acknowledgment of `ack` leads to from `t`: it is established, and `ack` is
-- the oldest number that is not acknowledged.
pub record IsAcknowledged (ack : ℕ) (t u : Tcb) : Type 0 where
  pub id : u.id ≡ t.id
  pub state : u.state ≡ ConState.con_established
  pub unac : u.send.unac ≡ ack
  pub iss : u.send.iss ≡ t.send.iss
  pub next : u.send.next ≡ t.send.next
  pub send_window : u.send.window ≡ t.send.window
  pub recv : u.recv ≡ t.recv

pub on_syn-IsRequested :
    (iss seq window : ℕ) (t : Tcb) → IsRequested iss seq window t (on_syn iss seq window t)
unfolding on_syn
on_syn-IsRequested iss seq window t = record {
  id = refl;
  state = refl;
  irs = refl;
  recv_next = refl;
  recv_window = refl;
  send_window = go t.state;
  opened = λ e.
      let c : is_closed t.state ≡ true = rw e in
      record { iss = rw c refl; unac = rw c refl; next = rw c refl };
  kept = λ ne. let c = open_state t.state ne in (rw c refl, rw c refl, rw c refl);
}
  where
    go :
        (q : ConState)
        → (if is_closed q
            then (record { unac = iss; next = u32 (iss + 1); window = window; iss = iss })
            else (record t.send { window = window })).window
          ≡ window
    go ConState.con_closed = refl
    go ConState.con_syn_received = refl
    go ConState.con_established = refl
    go ConState.con_close_wait = refl
    go ConState.con_closing = refl
    go ConState.con_last_ack = refl
    go ConState.con_time_wait = refl

    open_state : (q : ConState) → q ≢ ConState.con_closed → is_closed q ≡ false
    open_state ConState.con_closed ne = absurd (ne refl)
    open_state ConState.con_syn_received ne = refl
    open_state ConState.con_established ne = refl
    open_state ConState.con_close_wait ne = refl
    open_state ConState.con_closing ne = refl
    open_state ConState.con_last_ack ne = refl
    open_state ConState.con_time_wait ne = refl

pub on_ack-IsAcknowledged : (ack : ℕ) (t : Tcb) → IsAcknowledged ack t (on_ack ack t)
unfolding on_ack
on_ack-IsAcknowledged ack t = record {
  id = refl;
  state = refl;
  unac = refl;
  iss = refl;
  next = refl;
  send_window = refl;
  recv = refl;
}

-- A block is in one of three states, with the numbers of that state.
pub data IsConnection (t : Tcb) : Type 0 where
  closed :
      t.state ≡ ConState.con_closed
      → t.recv.window ≡ tcp_win_def
      → t.recv.next < 2 ^ 32
      → IsConnection t
  syn_received :
      t.state ≡ ConState.con_syn_received
      → t.recv.window ≡ tcp_win_def
      → IsSynchronized t
      → t.send.unac ≡ t.send.iss
      → IsConnection t
  established :
      t.state ≡ ConState.con_established
      → t.recv.window ≡ tcp_win_def
      → IsSynchronized t
      → t.send.unac ≡ t.send.next
      → IsConnection t

pub new_tcb-IsConnection : (id : ConId) → IsConnection (new_tcb id)
unfolding new_tcb
new_tcb-IsConnection id = closed refl refl (omega arith)

-- a receive window that sequence numbers can be compared with
pub record HasWindow (t : Tcb) : Type 0 where
  pub small : t.recv.window ≤ 2 ^ 31
  pub next : t.recv.next < 2 ^ 32

pub IsConnection-HasWindow : (t : Tcb) → IsConnection t → HasWindow t
IsConnection-HasWindow t (closed e w n) = record { small = omega (arith, w); next = n }
IsConnection-HasWindow t (syn_received e w n u) = record {
  small = omega (arith, w);
  next = omega (arith, n.recv_next);
}
IsConnection-HasWindow t (established e w n u) = record {
  small = omega (arith, w);
  next = omega (arith, n.recv_next);
}

-- For a closed block with the default window, the block after a request is a connection.
pub IsRequested-IsConnection :
    (iss seq window : ℕ) (t u : Tcb)
    → t.state ≡ ConState.con_closed
    → t.recv.window ≡ tcp_win_def
    → IsRequested iss seq window t u
    → IsConnection u
IsRequested-IsConnection iss seq window t u e w r =
    let o = r.opened e in
    syn_received r.state (r.recv_window ∙ w)
      (record {
        send_next = o.next ∙ ap (λ (n : ℕ). u32 (n + 1)) (sym o.iss);
        recv_next = r.recv_next ∙ ap (λ (n : ℕ). u32 (n + 1)) (sym r.irs);
      })
      (o.unac ∙ sym o.iss)

-- For a connection in SYN_RECEIVED and an acknowledgment of its next number, the block after it is
-- a connection.
pub IsAcknowledged-IsConnection :
    (ack : ℕ) (t u : Tcb)
    → t.state ≡ ConState.con_syn_received
    → ack ≡ t.send.next
    → IsAcknowledged ack t u
    → IsConnection t
    → IsConnection u
IsAcknowledged-IsConnection ack t u e same r (closed e' w n) = absurd (ground arith)
IsAcknowledged-IsConnection ack t u e same r (syn_received e' w n _) =
    established r.state (ap (λ (x : ReceiveState). x.window) r.recv ∙ w)
      (record {
        send_next = r.next ∙ n.send_next ∙ ap (λ (x : ℕ). u32 (x + 1)) (sym r.iss);
        recv_next =
            ap (λ (x : ReceiveState). x.next) r.recv
            ∙ n.recv_next
            ∙ ap (λ (x : ReceiveState). u32 (x.irs + 1)) (sym r.recv);
      })
      (r.unac ∙ same ∙ sym r.next)
IsAcknowledged-IsConnection ack t u e same r (established e' w n _) = absurd (ground arith)

-- Every block on the heap is such a connection.
abbrev pub AllConnections : Heap → Type 0
AllConnections h = (q : Ptr) (t : Tcb) → h q ≡ some t → IsConnection t

pub AllConnections-write :
    (h : Heap) (p : Ptr) (t : Tcb)
    → AllConnections h
    → IsConnection t
    → AllConnections (write h p (some t))
AllConnections-write h p t all here q u e = elim (Bool-cases (q == p)) [
  | inl same ↦ let e' : some t ≡ some u = rw same at e in rw (sym (some_inj e')) here
  | inr other ↦ all q u (rw other at e)
]

pub AllConnections-free : (h : Heap) (p : Ptr) → AllConnections h → AllConnections (write h p none)
AllConnections-free h p all q u e = elim (Bool-cases (q == p)) [
  | inl same ↦ absurd (let e' : none ≡ some u = rw same at e in ground arith)
  | inr other ↦ all q u (rw other at e)
]
