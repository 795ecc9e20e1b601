-- ===== src/Legacy/Segment.antt =====
-- The segments of the older server (network/tcp/tcp.c), written over the received packet, and what
-- their sending does to the connection's block. `tcp` is the offset of the TCP header.
use lazy_tcp.Prelude.{ℕ, ◌+◌, ◌-◌, ◌*◌, ◌/◌, ◌^◌, Bool, ◌&&◌, Option, none, some, ltb}
use lazy_tcp.Prelude.{if◌then◌else◌, Run, ok, ◌>>=◌}
use lazy_tcp.Word.{u32, sub32, ntohs, ntohl, htons, htonl, has_bit}
use lazy_tcp.Buf.{Buf, load8, load16, load32, store8, store16, store32, memcpy}
use lazy_tcp.Layout.{Ipv4, ip_at, Tcp, tcp_at, Pseudo, pseudo_at, sizeof_pseudo}
use lazy_tcp.Ip.{ihl_of, ip_swap_dst}
use lazy_tcp.Transport.{fin_flag, syn_flag, rst_flag, psh_flag, ack_flag}
use lazy_tcp.Segment.{hlen_of}
use lazy_tcp.Legacy.{packet_checksum}
use lazy_tcp.Legacy.Ip.{ip_update_checksum}
use lazy_tcp.Legacy.Block.{Address, TcbNode, put_node, deref_node}
use lazy_tcp.Legacy.Connections.{TcpServerInstance}
use lazy_tcp.Legacy.Http.{File, HttpMemory}
pub mod Seal
pub mod Bytes
pub mod Answer
pub mod Reset
pub mod SynAck
pub mod Ack

-- What the handling of one packet takes from outside: the clock, `rand`, the result of `malloc`
-- for a block, the file and the memory of the HTTP responder, what fresh arrays hold, and the
-- number of steps that a walk along the list may make.
pub record World : Type 0 where
  pub tv_sec : ℕ
  pub tv_usec : ℕ
  pub rand : ℕ
  pub tcb_mem : Option Address
  pub file : Option File
  pub http_mem : HttpMemory
  pub stack : ℕ → ℕ
  pub steps : ℕ

unfoldable pub tcp_get_ticks : World → ℕ
tcp_get_ticks w = u32 (w.tv_sec * 1000000 + w.tv_usec + w.rand)

unfoldable pub tcp_switch_port : Buf → (tcp : ℕ) → Run Buf
tcp_switch_port b tcp = do
  dst ← load16 b (tcp + tcp_at Tcp.dst_port)
  src ← load16 b (tcp + tcp_at Tcp.src_port)
  b' ← store16 b (tcp + tcp_at Tcp.dst_port) src
  store16 b' (tcp + tcp_at Tcp.src_port) dst

-- The checksum over a copy of the pseudo header and the segment.
unfoldable pub tcp_update_checksum :
    (stack : ℕ → ℕ) → Buf → (tcp tcp_pack_len : ℕ) → (pseudo_ip : Buf) → Run Buf
tcp_update_checksum stack b tcp tcp_pack_len pseudo_ip = do
  cleared ← store16 b (tcp + tcp_at Tcp.checksum) 0
  let buffer : Buf = record { size = tcp_pack_len + sizeof_pseudo + 1; at = stack }
  buffer1 ← memcpy buffer 0 pseudo_ip 0 sizeof_pseudo
  buffer2 ← memcpy buffer1 sizeof_pseudo cleared tcp tcp_pack_len
  sum ← packet_checksum buffer2 0 (tcp_pack_len + sizeof_pseudo)
  store16 cleared (tcp + tcp_at Tcp.checksum) sum

-- How each segment ends: the IP checksum, the pseudo header, the TCP checksum.
unfoldable pub seal : (stack : ℕ → ℕ) → Buf → (tcp ip_header_len tcp_len : ℕ) → Run Buf
seal stack b tcp ip_header_len tcp_len = do
  b' ← ip_update_checksum b ip_header_len
  src ← load32 b' (ip_at Ipv4.src)
  dst ← load32 b' (ip_at Ipv4.dst)
  let pseudo : Buf = record { size = sizeof_pseudo; at = stack }
  p1 ← store32 pseudo (pseudo_at Pseudo.src) src
  p2 ← store32 p1 (pseudo_at Pseudo.dst) dst
  p3 ← store8 p2 (pseudo_at Pseudo.zero_byte) 0
  p4 ← store8 p3 (pseudo_at Pseudo.proto) 6
  p5 ← store16 p4 (pseudo_at Pseudo.tcp_len) (htons tcp_len)
  tcp_update_checksum stack b' tcp tcp_len p5

-- The numbers are 32-bit patterns: `seg_len` may be negative.
unfoldable pub tcp_null_rst : (stack : ℕ → ℕ) → Buf → (tcp : ℕ) → Run Buf
tcp_null_rst stack b tcp = do
  flags ← load8 b (tcp + tcp_at Tcp.flags)
  data_offset ← load8 b (tcp + tcp_at Tcp.data_offset)
  v ← load8 b (ip_at Ipv4.version_ihl)
  len ← load16 b (ip_at Ipv4.len)
  ack ← load32 b (tcp + tcp_at Tcp.ack_num)
  seq ← load32 b (tcp + tcp_at Tcp.seq_num)
  let tcp_header_len = hlen_of data_offset
  let ip_header_len = ihl_of v
  let bit : ℕ → ℕ = λ mask. if has_bit flags mask then 1 else 0
  let seg_len = sub32 (sub32 (ntohs len) ip_header_len) tcp_header_len
  let is_ack = has_bit flags ack_flag
  let seq_num = if is_ack then ntohl ack else 0
  let ack_num =
      if is_ack then 0 else u32 (ntohl seq + u32 (seg_len + (bit fin_flag + bit syn_flag)))
  let flags' = if is_ack then rst_flag else rst_flag + ack_flag
  b1 ← ip_swap_dst b
  b2 ← tcp_switch_port b1 tcp
  b3 ← store16 b2 (ip_at Ipv4.len) (htons (ip_header_len + tcp_header_len))
  b4 ← store32 b3 (tcp + tcp_at Tcp.seq_num) (htonl seq_num)
  b5 ← store32 b4 (tcp + tcp_at Tcp.ack_num) (htonl ack_num)
  b6 ← store8 b5 (tcp + tcp_at Tcp.data_offset) (tcp_header_len / 4 * 16)
  b7 ← store8 b6 (tcp + tcp_at Tcp.flags) flags'
  b8 ← store16 b7 (tcp + tcp_at Tcp.window) 0
  b9 ← store16 b8 (tcp + tcp_at Tcp.urgent_ptr) 0
  seal stack b9 tcp ip_header_len tcp_header_len

-- the block once a connection request is answered
unfoldable pub on_request : (seq_num window ticks : ℕ) → TcbNode → TcbNode
on_request seq_num window ticks t = record t {
  recv = record t.recv { irs = seq_num; next = u32 (seq_num + 1) };
  send = record { window = window; iss = ticks; next = u32 (ticks + 1); unac = ticks };
}

unfoldable pub tcp_null_syn_ack :
    World
    → Buf
    → (tcp : ℕ) → (tcb : Option Address) → TcpServerInstance
    → Run (Buf × TcpServerInstance)
tcp_null_syn_ack w b tcp tcb s = do
  seq ← load32 b (tcp + tcp_at Tcp.seq_num)
  (p, old) ← deref_node s.nodes tcb
  window ← load16 b (tcp + tcp_at Tcp.window)
  let t = on_request (ntohl seq) (ntohs window) (tcp_get_ticks w) old
  b1 ← ip_swap_dst b
  b2 ← tcp_switch_port b1 tcp
  data_offset ← load8 b2 (tcp + tcp_at Tcp.data_offset)
  let tcp_header_len = hlen_of data_offset
  b3 ← store32 b2 (tcp + tcp_at Tcp.seq_num) (htonl t.send.iss)
  b4 ← store32 b3 (tcp + tcp_at Tcp.ack_num) (htonl t.recv.next)
  b5 ← store8 b4 (tcp + tcp_at Tcp.data_offset) (tcp_header_len / 4 * 16)
  b6 ← store8 b5 (tcp + tcp_at Tcp.flags) (syn_flag + ack_flag)
  b7 ← store16 b6 (tcp + tcp_at Tcp.window) (htons t.recv.window)
  b8 ← store16 b7 (tcp + tcp_at Tcp.urgent_ptr) 0
  v ← load8 b8 (ip_at Ipv4.version_ihl)
  let ip_header_len = ihl_of v
  b9 ← store16 b8 (ip_at Ipv4.len) (htons (ip_header_len + tcp_header_len))
  b10 ← seal w.stack b9 tcp ip_header_len tcp_header_len
  ok (b10, record s { nodes = put_node s.nodes p (some t) })

-- the flags, the payload and the total length, for a body that is there and not empty or else
unfoldable pub put_body :
    Buf → (tcp ip_hl tcp_hl : ℕ) → (body : Option Buf) → (body_len : ℕ) → Run Buf
put_body b tcp ip_hl tcp_hl none body_len = do
  b1 ← store8 b (tcp + tcp_at Tcp.flags) ack_flag
  store16 b1 (ip_at Ipv4.len) (htons (ip_hl + tcp_hl))
put_body b tcp ip_hl tcp_hl (some body) body_len =
    if ltb 0 body_len && ltb body_len (2 ^ 31)
    then (do
      b1 ← store8 b (tcp + tcp_at Tcp.flags) (psh_flag + ack_flag)
      b2 ← memcpy b1 (tcp + tcp_hl) body 0 body_len
      store16 b2 (ip_at Ipv4.len) (htons (ip_hl + tcp_hl + body_len)))
    else (do
      b1 ← store8 b (tcp + tcp_at Tcp.flags) ack_flag
      store16 b1 (ip_at Ipv4.len) (htons (ip_hl + tcp_hl)))

-- `tcb->send.next` after it
unfoldable pub on_sent : (body : Option Buf) → (body_len : ℕ) → TcbNode → TcbNode
on_sent none body_len t = t
on_sent (some body) body_len t =
    if ltb 0 body_len && ltb body_len (2 ^ 31)
    then record t { send = record t.send { next = u32 (t.send.next + body_len) } }
    else t

unfoldable pub tcp_send_ack :
    (stack : ℕ → ℕ)
    → Buf
    → (tcp : ℕ) → TcbNode
    → (body : Option Buf) → (body_len : ℕ) → Run (Buf × TcbNode)
tcp_send_ack stack b tcp t body body_len = do
  b1 ← ip_swap_dst b
  b2 ← tcp_switch_port b1 tcp
  v ← load8 b2 (ip_at Ipv4.version_ihl)
  data_offset ← load8 b2 (tcp + tcp_at Tcp.data_offset)
  let ip_hl = ihl_of v
  let tcp_hl = hlen_of data_offset
  b3 ← store32 b2 (tcp + tcp_at Tcp.seq_num) (htonl t.send.next)
  b4 ← store32 b3 (tcp + tcp_at Tcp.ack_num) (htonl t.recv.next)
  b5 ← store8 b4 (tcp + tcp_at Tcp.data_offset) (tcp_hl / 4 * 16)
  b6 ← store16 b5 (tcp + tcp_at Tcp.window) (htons t.recv.window)
  b7 ← store16 b6 (tcp + tcp_at Tcp.urgent_ptr) 0
  b8 ← put_body b7 tcp ip_hl tcp_hl body body_len
  b9 ← seal stack b8 tcp ip_hl (u32 (tcp_hl + body_len))
  ok (b9, on_sent body body_len t)
