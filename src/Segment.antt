-- ===== src/Segment.antt =====
-- The segments that the handler sends (refactor/network/tcp/segment.c), written over the received
-- ones.
pub mod Bytes
pub mod Prepared
pub mod SynAck
pub mod Reset
use lazy_tcp.Prelude.{ℕ, ◌+◌, ◌*◌, ◌/◌, Option, none, some}
use lazy_tcp.Prelude.{if◌then◌else◌, Run, ok, fault, ◌>>=◌}
use lazy_tcp.Word.{u16, u32, sub32, ntohs, ntohl, htons, htonl, has_bit}
use lazy_tcp.Buf.{Buf, load8, load16, load32, store8, store16, store32}
use lazy_tcp.Layout.{Ipv4, ip_at, Tcp, tcp_at}
use lazy_tcp.Ip.{ihl_of, ip_swap_dst, ip_checksum}
use lazy_tcp.Tcb.{Ptr}
use lazy_tcp.Hash.{Table, hash_delete}
use lazy_tcp.State.{deref}
use lazy_tcp.Transport.{Env, fin_flag, syn_flag, rst_flag, ack_flag, tcp_checksum}

unfoldable pub tcp_swap_port : Buf → (tcp : ℕ) → Run Buf
tcp_swap_port b tcp = do
  src_port ← load16 b (tcp + tcp_at Tcp.src_port)
  dst_port ← load16 b (tcp + tcp_at Tcp.dst_port)
  b' ← store16 b (tcp + tcp_at Tcp.src_port) dst_port
  store16 b' (tcp + tcp_at Tcp.dst_port) src_port

-- `(tcp->data_offset >> 4) * 4`
abbrev pub hlen_of : ℕ → ℕ
hlen_of data_offset = data_offset / 16 * 4

-- The writes to the TCP header that both segments make.
unfoldable pub set_fields : Buf → (tcp seq_no ack_no data_offset flags window : ℕ) → Run Buf
set_fields b tcp seq_no ack_no data_offset flags window = do
  b1 ← store32 b (tcp + tcp_at Tcp.seq_num) (htonl seq_no)
  b2 ← store32 b1 (tcp + tcp_at Tcp.ack_num) (htonl ack_no)
  b3 ← store8 b2 (tcp + tcp_at Tcp.data_offset) data_offset
  b4 ← store8 b3 (tcp + tcp_at Tcp.flags) flags
  b5 ← store16 b4 (tcp + tcp_at Tcp.window) window
  store16 b5 (tcp + tcp_at Tcp.urgent_ptr) 0

unfoldable pub tcp_syn_ack :
    (stack : ℕ → ℕ) → Table → (tcb : Option Ptr) → Buf → (len offset : ℕ) → Run (ℕ × Buf)
tcp_syn_ack stack s tcb b len offset = do
  b1 ← ip_swap_dst b
  b2 ← tcp_swap_port b1 offset
  data_offset ← load8 b2 (offset + tcp_at Tcp.data_offset)
  let tcp_hlen = hlen_of data_offset
  (_, t) ← deref s.heap tcb
  b3 ← set_fields b2 offset t.send.iss t.recv.next (tcp_hlen / 4 * 16) 0x12 (htons t.recv.window)
  v ← load8 b3 (ip_at Ipv4.version_ihl)
  let ip_hlen = ihl_of v
  b4 ← store16 b3 (ip_at Ipv4.len) (htons (ip_hlen + tcp_hlen))
  b5 ← ip_checksum b4
  (cs, b6) ← tcp_checksum stack b5 len offset
  b7 ← store16 b6 (offset + tcp_at Tcp.checksum) cs
  ok (ip_hlen + tcp_hlen, b7)

-- `hash_delete(tcb)`, which reads through the pointer if the table is set up
unfoldable pub delete_tcb : Table → (tcb : Option Ptr) → Run Table
delete_tcb s none = if s.init then fault else ok s
delete_tcb s (some p) = hash_delete s p

-- `seg_len` and the sums with it wrap as 32-bit words. On each branch the variables that the code
-- leaves unset have the values of `env`.
unfoldable pub tcp_rst :
    Env → Table → (tcb : Option Ptr) → Buf → (offset : ℕ) → Run (ℕ × Buf × Table)
tcp_rst env s tcb b offset = do
  flags ← load8 b (offset + tcp_at Tcp.flags)
  data_offset ← load8 b (offset + tcp_at Tcp.data_offset)
  v ← load8 b (ip_at Ipv4.version_ihl)
  len ← load16 b (ip_at Ipv4.len)
  ack ← load32 b (offset + tcp_at Tcp.ack_num)
  seq ← load32 b (offset + tcp_at Tcp.seq_num)
  let tcp_hlen = hlen_of data_offset
  let ip_hlen = ihl_of v
  let seg_len = sub32 (sub32 (ntohs len) ip_hlen) tcp_hlen
  let is_ack = has_bit flags ack_flag
  let bit : ℕ → ℕ = λ mask. if has_bit flags mask then 1 else 0
  let seq_no = if is_ack then htons (u16 ack) else env.unset_seq_no
  let ack_no =
      if is_ack
      then env.unset_ack_no
      else u32 (ntohl seq + u32 (seg_len + (bit fin_flag + bit syn_flag)))
  let pl_flags = if is_ack then rst_flag else env.unset_pl_flags
  b1 ← ip_swap_dst b
  b2 ← tcp_swap_port b1 offset
  b3 ← store16 b2 (ip_at Ipv4.len) (htons (ip_hlen + tcp_hlen))
  b4 ← set_fields b3 offset seq_no ack_no (tcp_hlen / 4 * 16) pl_flags 0
  s' ← delete_tcb s tcb
  ok (ip_hlen + tcp_hlen, b4, s')
