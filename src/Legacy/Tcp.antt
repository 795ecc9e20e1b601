-- ===== src/Legacy/Tcp.antt =====
-- The TCP dispatcher of the older server (network/tcp/tcp.c). What it prints is left out.
use lazy_tcp.Prelude.{ℕ, ◌+◌, ◌-◌, Bool, true, false, not, ◌&&◌, Option, none, some, ltb, ◌==◌}
use lazy_tcp.Prelude.{if◌then◌else◌, Run, ok, ◌>>=◌}
use lazy_tcp.Word.{u32, ntohs, ntohl, has_bit, seq_lt, seq_geq}
use lazy_tcp.Buf.{Buf, load8, load16, load32}
use lazy_tcp.Layout.{Ipv4, ip_at, Tcp, tcp_at}
use lazy_tcp.Ip.{ihl_of}
use lazy_tcp.Transport.{fin_flag, syn_flag, rst_flag, ack_flag}
use lazy_tcp.Segment.{hlen_of}
use lazy_tcp.Legacy.Block.{
  Address, TcbNode, TcpState, TcpConnectionId, put_node, load_node, tcp_init_tcb,
}
use lazy_tcp.Legacy.Connections.{
  TcpServerInstance, tcp_insert_tcb, tcp_get_state, tcp_remove_connection,
}
use lazy_tcp.Legacy.Http.{http_handle_request}
use lazy_tcp.Legacy.Segment.{World, tcp_null_rst, tcp_null_syn_ack, tcp_send_ack}
pub mod Cases
pub mod Known
pub mod New
pub mod Safe

-- `TCP_SILENT`; an answered packet has the code 0
abbrev pub tcp_silent : ℕ
tcp_silent = 2

abbrev pub answered : ℕ
answered = 0

-- The sequence number is compared in the packet's byte order. The result is false if the
-- connection was removed.
unfoldable pub tcp_got_rst :
    World → Buf → (tcp : ℕ) → (tcb : Address) → TcpServerInstance → Run (Bool × TcpServerInstance)
tcp_got_rst w b tcp tcb s = do
  rst_seq ← load32 b (tcp + tcp_at Tcp.seq_num)
  t ← load_node s.nodes tcb
  if seq_geq rst_seq t.recv.next && seq_lt rst_seq (u32 (t.recv.next + t.recv.window))
      then (do s' ← tcp_remove_connection w.steps s tcb; ok (false, s'))
      else ok (true, s)

abbrev pub set_node : TcpServerInstance → Address → TcbNode → TcpServerInstance
set_node s p t = record s { nodes = put_node s.nodes p (some t) }

unfoldable pub tcp_handle_data :
    World
    → Buf
    → (tcp : ℕ) → (tcb : Address) → TcpServerInstance
    → Run (ℕ × Buf × TcpServerInstance)
tcp_handle_data w b tcp tcb s = do
  v ← load8 b (ip_at Ipv4.version_ihl)
  data_offset ← load8 b (tcp + tcp_at Tcp.data_offset)
  len ← load16 b (ip_at Ipv4.len)
  let ip_hl = ihl_of v
  let tcp_hl = hlen_of data_offset
  let data_len = ntohs len - (ip_hl + tcp_hl)
  if ltb 0 data_len
      then (do
        response ← http_handle_request w.file w.http_mem b (ip_hl + tcp_hl) data_len
        t ← load_node s.nodes tcb
        let t1 = record t { recv = record t.recv { next = u32 (t.recv.next + data_len) } }
        (b', t2) ← tcp_send_ack w.stack b tcp t1 (some response) response.size
        ok (answered, b', set_node s tcb t2))
      else ok (tcp_silent, b, s)

-- a segment of no known connection
unfoldable pub new_connection :
    World
    → Buf
    → (tcp flags : ℕ) → TcpConnectionId
    → TcpServerInstance
    → Run (ℕ × Buf × TcpServerInstance)
new_connection w b tcp flags id s =
    if has_bit flags rst_flag
    then ok (tcp_silent, b, s)
    else if has_bit flags syn_flag && not (has_bit flags ack_flag)
    then (let made = tcp_init_tcb w.tcb_mem id s.nodes in
        do
          s1 ← tcp_insert_tcb w.steps made.0 (record s { nodes = made.1 })
          (b', s2) ← tcp_null_syn_ack w b tcp made.0 s1
          ok (answered, b', s2))
    else (do b' ← tcp_null_rst w.stack b tcp; ok (answered, b', s))

-- The `switch` on the state. In SYN_RECEIVED the packet of a repeated request is written over, but
-- the code says that there is no answer.
unfoldable pub on_state :
    World
    → Buf
    → (tcp flags : ℕ) → (tcb : Address) → TcbNode
    → TcpState
    → TcpServerInstance
    → Run (ℕ × Buf × TcpServerInstance)
on_state w b tcp flags tcb t TcpState.tcp_syn_received s =
    let syn = has_bit flags syn_flag in
    let ack = has_bit flags ack_flag in
    if syn && not ack
    then (do (b', s') ← tcp_null_syn_ack w b tcp (some tcb) s; ok (tcp_silent, b', s'))
    else if ack && not syn
    then (do
      ack_num ← load32 b (tcp + tcp_at Tcp.ack_num)
      if ntohl ack_num == t.send.next
          then ok (
            tcp_silent,
            b,
            set_node s tcb (record t {
              state = TcpState.tcp_established;
              send = record t.send { unac = ntohl ack_num };
            }),
          )
          else ok (tcp_silent, b, s))
    else ok (tcp_silent, b, s)
on_state w b tcp flags tcb t TcpState.tcp_established s =
    if has_bit flags fin_flag
    then (do
      seq_num ← load32 b (tcp + tcp_at Tcp.seq_num)
      let t1 = record t { recv = record t.recv { next = u32 (ntohl seq_num + 1) } }
      (b', t2) ← tcp_send_ack w.stack b tcp t1 none 0
      ok (answered, b', set_node s tcb (record t2 { state = TcpState.tcp_close_wait })))
    else tcp_handle_data w b tcp tcb s
on_state w b tcp flags tcb t _ s = ok (tcp_silent, b, s)

-- a segment of the connection with the block `tcb`
unfoldable pub known_connection :
    World
    → Buf
    → (tcp flags : ℕ) → (tcb : Address) → TcpServerInstance
    → Run (ℕ × Buf × TcpServerInstance)
unfolding on_state
known_connection w b tcp flags tcb s =
    if has_bit flags rst_flag
    then (do (_, s') ← tcp_got_rst w b tcp tcb s; ok (tcp_silent, b, s'))
    else (do t ← load_node s.nodes tcb; on_state w b tcp flags tcb t t.state s)

unfoldable pub tcp_dispatch :
    World → Buf → (tcp : ℕ) → TcpServerInstance → Run (ℕ × Buf × TcpServerInstance)
unfolding known_connection new_connection
tcp_dispatch w b tcp s = do
  src ← load32 b (ip_at Ipv4.src)
  dst ← load32 b (ip_at Ipv4.dst)
  src_port ← load16 b (tcp + tcp_at Tcp.src_port)
  dst_port ← load16 b (tcp + tcp_at Tcp.dst_port)
  flags ← load8 b (tcp + tcp_at Tcp.flags)
  let id : TcpConnectionId = record {
    src_ip = src;
    src_port = src_port;
    dst_ip = dst;
    dst_port = dst_port;
  }
  found ← tcp_get_state w.steps id s
  elim found [
    | none ↦ new_connection w b tcp flags id s
    | some p ↦ known_connection w b tcp flags p s
  ]
