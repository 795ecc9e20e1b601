-- ===== src/Dispatch/Edges.antt =====
-- The classification of a segment, against the cases of RFC 793 that the handler knows.
use lazy_tcp.Prelude.{
  ℕ, ◌≡◌, ◌≢◌, inl, inr, refl, arith, true, false, not, ◌&&◌, Bool-cases, ==_iff, ◌==◌, sym,
}
use mathlib.Core.Path.{subst}
use lazy_tcp.Tcb.{Tcb, ConId, ConState, Edge}
use lazy_tcp.State.Connection.{IsConnection, closed, syn_received, established}
use lazy_tcp.Transport.{Flags, tcp_listen_port}
use lazy_tcp.Dispatch.{edge_of}

-- For a connection to `port` in each of its states, the event that a segment with the flags `f` is.
pub data Classifies (f : Flags) (port : ℕ) : ConState → Edge → Type 0 where
  other_port :
      (state : ConState) → port ≢ tcp_listen_port → Classifies f port state Edge.evt_send_rst
  reset :
      (state : ConState)
      → port ≡ tcp_listen_port
      → f.rst ≡ true
      → Classifies f port state Edge.evt_rst
  request :
      port ≡ tcp_listen_port
      → f.rst ≡ false
      → f.syn ≡ true
      → f.ack ≡ false
      → Classifies f port ConState.con_closed Edge.evt_syn
  no_request :
      port ≡ tcp_listen_port
      → f.rst ≡ false
      → (f.syn && not f.ack) ≡ false
      → Classifies f port ConState.con_closed Edge.evt_send_rst
  acknowledgment :
      port ≡ tcp_listen_port
      → f.rst ≡ false
      → f.ack ≡ true
      → f.syn ≡ false
      → Classifies f port ConState.con_syn_received Edge.evt_ack
  no_acknowledgment :
      port ≡ tcp_listen_port
      → f.rst ≡ false
      → (f.ack && not f.syn) ≡ false
      → Classifies f port ConState.con_syn_received Edge.evt_send_rst
  request_again :
      port ≡ tcp_listen_port
      → f.rst ≡ false
      → f.syn ≡ true
      → Classifies f port ConState.con_established Edge.evt_send_rst
  content :
      port ≡ tcp_listen_port
      → f.rst ≡ false
      → f.syn ≡ false
      → Classifies f port ConState.con_established Edge.evt_data

module _ (f : Flags) (id : ConId) where
  ByState : ConState → Type 0
  ByState state = Classifies f id.dst_port state (edge_of f id state)

  by :
      {state : ConState} {e : Edge}
      → edge_of f id state ≡ e
      → Classifies f id.dst_port state e
      → ByState state
  unfolding ByState
  by {state} same c = subst (λ e. Classifies f id.dst_port state e) (sym same) c

  module _ (port : id.dst_port ≡ tcp_listen_port) (rst : f.rst ≡ false) where
    on_closed : ByState ConState.con_closed
    unfolding edge_of
    on_closed = elim (Bool-cases (f.syn && not f.ack)) [
      | inl hit ↦ by (ground arith) (request port rst (ground (arith, hit)) (ground (arith, hit)))
      | inr miss ↦ by (ground arith) (no_request port rst miss)
    ]

    on_syn_received : ByState ConState.con_syn_received
    unfolding edge_of
    on_syn_received = elim (Bool-cases (f.ack && not f.syn)) [
      | inl hit ↦
          by (ground arith) (acknowledgment port rst (ground (arith, hit)) (ground (arith, hit)))
      | inr miss ↦ by (ground arith) (no_acknowledgment port rst miss)
    ]

    on_established : ByState ConState.con_established
    unfolding edge_of
    on_established = elim (Bool-cases f.syn) [
      | inl hit ↦ by (ground arith) (request_again port rst hit)
      | inr miss ↦ by (ground arith) (content port rst miss)
    ]

    listened : (t : Tcb) → IsConnection t → ByState t.state
    listened t (closed e w _) = subst ByState (sym e) on_closed
    listened t (syn_received e w n u) = subst ByState (sym e) on_syn_received
    listened t (established e w n u) = subst ByState (sym e) on_established

  -- For a block that is a connection, the event of a segment is the one that the cases of
  -- `Classifies` give for its port, its flags and the state.
  pub edge_of-Classifies :
      (t : Tcb) → IsConnection t → Classifies f id.dst_port t.state (edge_of f id t.state)
  unfolding edge_of ByState
  edge_of-Classifies t c = elim (Bool-cases (id.dst_port == tcp_listen_port)) [
    | inl hit ↦
        let port = (==_iff id.dst_port tcp_listen_port).0 hit in
        elim (Bool-cases f.rst) [
          | inl rst ↦ by (ground arith) (reset t.state port rst)
          | inr no_rst ↦ listened port no_rst t c
        ]
    | inr miss ↦ by (ground arith) (other_port t.state (ground arith))
  ]

-- what an event says of the state: no segment of a connection is dropped, or only a FIN
abbrev pub Expects : Edge → ConState → Type 0
Expects Edge.evt_syn state = state ≡ ConState.con_closed
Expects Edge.evt_ack state = state ≡ ConState.con_syn_received
Expects Edge.evt_drop state = ⊥
Expects Edge.evt_fin state = ⊥
Expects _ state = Unit

pub Classifies-Expects :
    {f : Flags} {port : ℕ} (state : ConState) (e : Edge)
    → Classifies f port state e
    → Expects e state
Classifies-Expects state e (other_port _ port) = tt
Classifies-Expects state e (reset _ port rst) = tt
Classifies-Expects state e (request port rst syn ack) = refl
Classifies-Expects state e (no_request port rst miss) = tt
Classifies-Expects state e (acknowledgment port rst ack syn) = refl
Classifies-Expects state e (no_acknowledgment port rst miss) = tt
Classifies-Expects state e (request_again port rst syn) = tt
Classifies-Expects state e (content port rst syn) = tt
