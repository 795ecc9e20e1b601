-- ===== src/State/Update.antt =====
-- What an event does to a block that the table holds, and to the table.
use lazy_tcp.Prelude.{
  ℕ, ◌+◌, ◌-◌, ◌%◌, ◌^◌, ◌<◌, ◌↔◌, ◌≤◌, ◌≡◌, ◌≢◌, inl, inr, refl, arith, Bool, true, false, some,
  Bool-cases, ==_iff, ◌==◌, if◌then◌else◌, ok, Returns, ◌∙◌,
}
use lazy_tcp.Word.{ntohs, ntohl, ntohl-lt, seq_lt, seq_geq}
use lazy_tcp.State.Connection.{
  IsRequested, IsAcknowledged, HasWindow, on_syn-IsRequested, on_ack-IsAcknowledged,
}
use lazy_tcp.Buf.{Buf, word16, word32}
use lazy_tcp.Buf.Access.{load16-ok, load32-ok}
use lazy_tcp.Layout.{Tcp, tcp_at}
use lazy_tcp.Tcb.{Ptr, Heap, Tcb, ConId, Edge}
use lazy_tcp.Tcb.Ids.{load-ok}
use lazy_tcp.Hash.{Table}
use lazy_tcp.Hash.Laws.{IsTable, Holds}
use lazy_tcp.Hash.Delete.{Deletes, hash_delete-Deletes}
use lazy_tcp.State.{deref, set_tcb, on_ack, in_window, tcb_state_update}
use lazy_tcp.Transport.{Env, tcp_gen_iss}

-- A segment's numbers, as the sender means them.
abbrev pub seq_of : Buf → ℕ → ℕ
seq_of b tcp = ntohl (word32 b.at (tcp + tcp_at Tcp.seq_num))

abbrev pub ack_of : Buf → ℕ → ℕ
ack_of b tcp = ntohl (word32 b.at (tcp + tcp_at Tcp.ack_num))

abbrev pub window_of : Buf → ℕ → ℕ
window_of b tcp = ntohs (word16 b.at (tcp + tcp_at Tcp.window))

-- A number is in the receive window: it is less than the window's size behind the number that is
-- expected next, modulo 2 ^ 32.
abbrev pub InWindow : ℕ → Tcb → Type 0
InWindow seq t = (seq + 2 ^ 32 - t.recv.next) % 2 ^ 32 < t.recv.window

in_window_iff :
    (seq : ℕ) (t : Tcb) → seq < 2 ^ 32 → HasWindow t → (in_window seq t ≡ true) ↔ InWindow seq t
unfolding in_window seq_geq seq_lt
in_window_iff seq t below w =
    (λ h. ground (arith, below, w.small, w.next), λ h. ground (arith, below, w.small, w.next))

-- The event's effect on the block `t` at `p`, known as `a`: whether the segment is valid, and the
-- table after it.
pub data Updates (env : Env) (b : Buf) (tcp : ℕ) (s : Table) (a : ConId) (p : Ptr) (t : Tcb)
    : Edge → Bool × Table → Type 0 where
  requested :
      (u : Tcb)
      → IsRequested (tcp_gen_iss env) (seq_of b tcp) (window_of b tcp) t u
      → Updates env b tcp s a p t Edge.evt_syn (true, set_tcb s p u)
  acknowledged :
      (u : Tcb)
      → ack_of b tcp ≡ t.send.next
      → IsAcknowledged (ack_of b tcp) t u
      → Updates env b tcp s a p t Edge.evt_ack (true, set_tcb s p u)
  not_acknowledged : ack_of b tcp ≢ t.send.next → Updates env b tcp s a p t Edge.evt_ack (false, s)
  reset :
      (s' : Table)
      → InWindow (seq_of b tcp) t
      → Deletes s a p s'
      → Updates env b tcp s a p t Edge.evt_rst (true, s')
  not_reset : ¬ InWindow (seq_of b tcp) t → Updates env b tcp s a p t Edge.evt_rst (false, s)
  unchanged :
      (e : Edge)
      → e ≢ Edge.evt_syn
      → e ≢ Edge.evt_ack
      → e ≢ Edge.evt_rst
      → Updates env b tcp s a p t e (true, s)

pub deref-ok : (h : Heap) (p : Ptr) {t : Tcb} → h p ≡ some t → deref h (some p) ≡ ok (p, t)
unfolding deref
deref-ok h p at = rw (load-ok h p at)

-- For a segment inside its buffer, a valid table that holds the block `p` under `a`, whose receive
-- window numbers can be compared with, and any event, `tcb_state_update` meets no fault and does
-- to the block and the table what `Updates` says for the event.
pub tcb_state_update-Updates :
    (env : Env) (b : Buf) (tcp : ℕ) (s : Table) (a : ConId) (p : Ptr) (t : Tcb) (e : Edge)
    → tcp + 20 ≤ b.size
    → IsTable s
    → Holds s a p
    → s.heap p ≡ some t
    → HasWindow t
    → Returns (tcb_state_update env b tcp (some p) e s) (Updates env b tcp s a p t e)
unfolding tcb_state_update
tcb_state_update-Updates env b tcp s a p t Edge.evt_syn room valid holds at win = (
  _,
  rw (
    deref-ok s.heap p at,
    load32-ok b (tcp + 4) (omega arith),
    load16-ok b (tcp + 14) (omega arith),
  ),
  requested _ (on_syn-IsRequested (tcp_gen_iss env) (seq_of b tcp) (window_of b tcp) t),
)
tcb_state_update-Updates env b tcp s a p t Edge.evt_ack room valid holds at win =
    let run : tcb_state_update env b tcp (some p) Edge.evt_ack s ≡ (
        if ack_of b tcp == t.send.next
        then ok (true, set_tcb s p (on_ack (ack_of b tcp) t))
        else ok (false, s)) =
      rw (load32-ok b (tcp + 8) (omega arith), deref-ok s.heap p at) in
    elim (Bool-cases (ack_of b tcp == t.send.next)) [
      | inl hit ↦ (
        _,
        run ∙ rw hit,
        acknowledged _ ((==_iff (ack_of b tcp) t.send.next).0 hit)
            (on_ack-IsAcknowledged (ack_of b tcp) t),
      )
      | inr miss ↦ (_, run ∙ rw miss, not_acknowledged (ground arith))
    ]
tcb_state_update-Updates env b tcp s a p t Edge.evt_rst room valid holds at win =
    let (s', deleted, deletes) = hash_delete-Deletes s a p valid holds in
    let run : tcb_state_update env b tcp (some p) Edge.evt_rst s
        ≡ (if in_window (seq_of b tcp) t then ok (true, s') else ok (false, s)) =
      rw (load32-ok b (tcp + 4) (omega arith), deref-ok s.heap p at, deleted) in
    elim (Bool-cases (in_window (seq_of b tcp) t)) [
      | inl inside ↦ (
        _,
        run ∙ rw inside,
        reset s' ((in_window_iff (seq_of b tcp) t (ntohl-lt _) win).0 inside) deletes,
      )
      | inr outside ↦ (
        _,
        run ∙ rw outside,
        not_reset
            (λ h. ground (arith, outside, (in_window_iff (seq_of b tcp) t (ntohl-lt _) win).1 h)),
      )
    ]
tcb_state_update-Updates env b tcp s a p t Edge.evt_data room valid holds at win =
    (_, refl, unchanged Edge.evt_data (λ e. ground arith) (λ e. ground arith) (λ e. ground arith))
tcb_state_update-Updates env b tcp s a p t Edge.evt_fin room valid holds at win =
    (_, refl, unchanged Edge.evt_fin (λ e. ground arith) (λ e. ground arith) (λ e. ground arith))
tcb_state_update-Updates env b tcp s a p t Edge.evt_drop room valid holds at win =
    (_, refl, unchanged Edge.evt_drop (λ e. ground arith) (λ e. ground arith) (λ e. ground arith))
tcb_state_update-Updates env b tcp s a p t Edge.evt_send_rst room valid holds at win = (
  _,
  refl,
  unchanged Edge.evt_send_rst (λ e. ground arith) (λ e. ground arith) (λ e. ground arith),
)
