-- ===== src/Dispatch.antt =====
-- The TCP dispatcher (refactor/network/tcp/tcp.c): a segment is checked, classified against its
-- connection, applied to the state machine and answered.
pub mod Find
pub mod Edges
pub mod Good
pub mod Accept
pub mod Safe
pub mod Handshake
use lazy_tcp.Prelude.{ℕ, ◌+◌, Bool, true, false, not, ◌&&◌, Option, none, some}
use lazy_tcp.Prelude.{◌==◌, if◌then◌else◌, Run, ok, ◌>>=◌}
use lazy_tcp.Word.{ntohs, ntohl, has_bit}
use lazy_tcp.Buf.{Buf, load8, load16, load32}
use lazy_tcp.Layout.{Ipv4, ip_at, Tcp, tcp_at}
use lazy_tcp.Tcb.{Ptr, Heap, Tcb, ConId, ConState, Edge, load, free, tcb_init}
use lazy_tcp.Hash.{Table, hash_find, hash_insert}
use lazy_tcp.Transport.{
  Env, Flags, tcp_listen_port, fin_flag, syn_flag, rst_flag, psh_flag, ack_flag, tcp_checksum,
}
use lazy_tcp.State.{tcb_state_update}
use lazy_tcp.Segment.{tcp_syn_ack, tcp_rst}

-- the `switch` on the state, for a connection that is not closed
unfoldable pub open_edge : Flags → ConState → Edge
open_edge f ConState.con_syn_received =
    if f.ack && not f.syn then Edge.evt_ack else Edge.evt_send_rst
open_edge f ConState.con_established =
    if f.rst then Edge.evt_rst else if f.syn then Edge.evt_send_rst else Edge.evt_data
open_edge f _ = Edge.evt_drop

unfoldable pub state_edge : Flags → ConState → Edge
unfolding open_edge
state_edge f ConState.con_closed =
    if f.rst then Edge.evt_drop else if f.syn && not f.ack then Edge.evt_syn else Edge.evt_send_rst
state_edge f other = open_edge f other

-- the classification of a segment once there is a block for it
unfoldable pub edge_of : Flags → ConId → ConState → Edge
unfolding state_edge
edge_of f id state =
    if not (id.dst_port == tcp_listen_port)
    then Edge.evt_send_rst
    else if f.rst
    then Edge.evt_rst
    else state_edge f state

-- `tcb_init` has run: insert its block, or give it back
unfoldable pub insert_new : Env → Option Ptr × Heap → Table → Run (Option Ptr × Table)
insert_new env (none, h) s = ok (none, record s { heap = h })
insert_new env (some p, h) s = do
  (inserted, s') ← hash_insert env.bucket_mem env.grow_mem (record s { heap = h }) p
  if inserted then ok (some p, s') else (do h' ← free s'.heap p; ok (none, record s' { heap = h' }))

-- The block of the connection: found, or allocated and inserted; `none` if memory runs out.
unfoldable pub find_or_insert : Env → ConId → Table → Run (Option Ptr × Table)
unfolding insert_new
find_or_insert env id s = do
  found ← hash_find s id
  elim found [ some p ↦ ok (some p, s) | none ↦ insert_new env (tcb_init env.tcb_mem id s.heap) s ]

-- `*tcb` is set only for an edge that is not dropped
abbrev pub unless_dropped : Edge → Ptr → Option Ptr
unless_dropped Edge.evt_drop p = none
unless_dropped _ p = some p

unfoldable pub tcp_parse_edge : Env → Flags → ConId → Table → Run (Edge × Option Ptr × Table)
unfolding find_or_insert edge_of
tcp_parse_edge env flags id s = do
  (con, s') ← find_or_insert env id s
  elim con [
    | none ↦ ok (Edge.evt_drop, none, s')
    | some p ↦ do
      t ← load s'.heap p
      let edge = edge_of flags id t.state
      ok (edge, unless_dropped edge p, s')
  ]

abbrev pub flags_of : ℕ → Flags
flags_of flags = record {
  fin = has_bit flags fin_flag;
  syn = has_bit flags syn_flag;
  rst = has_bit flags rst_flag;
  psh = has_bit flags psh_flag;
  ack = has_bit flags ack_flag;
}

-- the `switch` that answers
unfoldable pub respond :
    Env → Edge → (tcb : Option Ptr) → Buf → (len offset : ℕ) → Table → Run (ℕ × Buf × Table)
respond env Edge.evt_syn tcb b len offset s = do
  (n, b') ← tcp_syn_ack env.stack s tcb b len offset
  ok (n, b', s)
respond env Edge.evt_send_rst tcb b len offset s = tcp_rst env s tcb b offset
respond env _ tcb b len offset s = ok (0, b, s)

-- the handling of a segment whose checksum is right
unfoldable pub tcp_accept : Env → Buf → (len offset : ℕ) → Table → Run (ℕ × Buf × Table)
unfolding tcp_parse_edge respond
tcp_accept env b len offset s = do
  src_port ← load16 b (offset + tcp_at Tcp.src_port)
  dst_port ← load16 b (offset + tcp_at Tcp.dst_port)
  src ← load32 b (ip_at Ipv4.src)
  dst ← load32 b (ip_at Ipv4.dst)
  flags ← load8 b (offset + tcp_at Tcp.flags)
  let id : ConId = record {
    src_port = ntohs src_port;
    dst_port = ntohs dst_port;
    src_ip = ntohl src;
    dst_ip = ntohl dst;
  }
  (edge, tcb, s1) ← tcp_parse_edge env (flags_of flags) id s
  (valid, s2) ← tcb_state_update env b offset tcb edge s1
  respond env (if valid then edge else Edge.evt_drop) tcb b len offset s2

unfoldable pub tcp_dispatch : Env → Buf → (len offset : ℕ) → Table → Run (ℕ × Buf × Table)
unfolding tcp_accept
tcp_dispatch env b len offset s = do
  (valid, b') ← tcp_checksum env.stack b len offset
  cs ← load16 b' (offset + tcp_at Tcp.checksum)
  if not (cs == valid) then ok (0, b', s) else tcp_accept env b' len offset s
