-- ===== src/Legacy/Tcp/Cases.antt =====
-- What the dispatcher of the older server does with a segment, case by case.
use lazy_tcp.Prelude.{
  ℕ, ◌+◌, ◌-◌, ◌^◌, ◌≤◌, ◌<◌, ◌≡◌, ◌≢◌, Bool, true, false, not, ◌&&◌, none, some, [], ◌∷◌, ◌++◌,
}
use lazy_tcp.Word.{u32, ntohs, seq_lt, seq_geq}
use lazy_tcp.Buf.{Buf, IsBytes, word16, word32}
use lazy_tcp.Layout.{Ipv4, ip_at, Tcp, tcp_at}
use lazy_tcp.Transport.{fin_flag, syn_flag, rst_flag, ack_flag}
use lazy_tcp.State.Update.{seq_of, ack_of}
use lazy_tcp.Segment.Prepared.{tcp_hlen}
use lazy_tcp.Segment.Reset.{flag}
use lazy_tcp.Legacy.Block.{Address, TcbNode, TcpState, TcpConnectionId, new_node}
use lazy_tcp.Legacy.Connections.{TcpServerInstance}
use lazy_tcp.Legacy.Connections.Chain.{Entries, lookup, count, Represents}
use lazy_tcp.Legacy.Connections.Insert.{body}
use lazy_tcp.Legacy.Connections.Remove.{IsRemoved}
use lazy_tcp.Legacy.Http.{File}
use lazy_tcp.Legacy.Http.Response.{HasMemory, IsServable, IsMessage, is_get}
use lazy_tcp.Legacy.Segment.{World, on_sent}
use lazy_tcp.Legacy.Segment.Answer.{IsAnswer}
use lazy_tcp.Legacy.Segment.Ack.{ack_of_block}
use lazy_tcp.Legacy.Segment.Reset.{reset_of}
use lazy_tcp.Legacy.Segment.SynAck.{requested, syn_ack_of, Greets}
use lazy_tcp.Legacy.Tcp.{tcp_silent, answered, set_node}

-- the identity of a segment's connection
abbrev pub connection : Buf → (offset : ℕ) → TcpConnectionId
connection b offset = record {
  src_ip = word32 b.at (ip_at Ipv4.src);
  src_port = word16 b.at (offset + tcp_at Tcp.src_port);
  dst_ip = word32 b.at (ip_at Ipv4.dst);
  dst_port = word16 b.at (offset + tcp_at Tcp.dst_port);
}

-- the sequence number as it stands in the packet, not converted, lies in the receive window
abbrev pub reset_in_window : Buf → (offset : ℕ) → TcbNode → Bool
reset_in_window b offset t =
    seq_geq (word32 b.at (offset + tcp_at Tcp.seq_num)) t.recv.next
    && seq_lt (word32 b.at (offset + tcp_at Tcp.seq_num)) (u32 (t.recv.next + t.recv.window))

-- the length of the segment's data
abbrev pub data_len : Buf → (offset : ℕ) → ℕ
data_len b offset = ntohs (word16 b.at (ip_at Ipv4.len)) - (offset + tcp_hlen b offset)

-- the block once data of the segment has been taken
abbrev pub taken : Buf → (offset : ℕ) → TcbNode → TcbNode
taken b offset t = record t {
  recv = record t.recv { next = u32 (t.recv.next + data_len b offset) };
}

-- the block once the segment's FIN has been taken
abbrev pub finished : Buf → (offset : ℕ) → TcbNode → TcbNode
finished b offset t = record t { recv = record t.recv { next = u32 (seq_of b offset + 1) } }

abbrev pub acknowledged : Buf → (offset : ℕ) → TcbNode → TcbNode
acknowledged b offset t = record t {
  state = TcpState.tcp_established;
  send = record t.send { unac = ack_of b offset };
}

module _ (w : World) (b : Buf) (offset : ℕ) (s : TcpServerInstance) where
  abbrev hlen : ℕ
  hlen = tcp_hlen b offset

  abbrev id : TcpConnectionId
  id = connection b offset

  abbrev quiet : ℕ × Buf × TcpServerInstance
  quiet = (tcp_silent, b, s)

  -- a segment of no known connection
  pub data NewCase (es : Entries) : ℕ × Buf × TcpServerInstance → Type 0 where
    reset_unknown : flag b offset rst_flag ≡ true → NewCase es quiet
    opened :
        (p : Address) (c : Buf) (s' : TcpServerInstance)
        → flag b offset rst_flag ≡ false
        → (flag b offset syn_flag && not (flag b offset ack_flag)) ≡ true
        → s.nodes p ≡ none
        → IsAnswer b offset hlen (syn_ack_of (requested w b offset (new_node id))) c
        → Represents s' (es ++ (p, id) ∷ [])
        → s'.nodes p ≡ some (requested w b offset (new_node id))
        → ((q : Address) → q ≢ p → body (s'.nodes q) ≡ body (s.nodes q))
        → NewCase es (answered, c, s')
    refused :
        (c : Buf)
        → flag b offset rst_flag ≡ false
        → (flag b offset syn_flag && not (flag b offset ack_flag)) ≡ false
        → IsAnswer b offset hlen (reset_of b offset) c
        → NewCase es (answered, c, s)

  -- a segment of the connection with the block `t` at `p`
  pub data KnownCase (es : Entries) (p : Address) (t : TcbNode)
      : ℕ × Buf × TcpServerInstance → Type 0 where
    removed :
        (s' : TcpServerInstance)
        → flag b offset rst_flag ≡ true
        → reset_in_window b offset t ≡ true
        → IsRemoved s es p s'
        → KnownCase es p t (tcp_silent, b, s')
    reset_outside :
        flag b offset rst_flag ≡ true → reset_in_window b offset t ≡ false → KnownCase es p t quiet
    repeated :
        (c : Buf) (s' : TcpServerInstance)
        → flag b offset rst_flag ≡ false
        → t.state ≡ TcpState.tcp_syn_received
        → (flag b offset syn_flag && not (flag b offset ack_flag)) ≡ true
        → Greets b offset s p (requested w b offset t) (c, s')
        → KnownCase es p t (tcp_silent, c, s')
    established :
        flag b offset rst_flag ≡ false
        → t.state ≡ TcpState.tcp_syn_received
        → (flag b offset ack_flag && not (flag b offset syn_flag)) ≡ true
        → ack_of b offset ≡ t.send.next
        → KnownCase es p t (tcp_silent, b, set_node s p (acknowledged b offset t))
    not_established :
        flag b offset rst_flag ≡ false
        → t.state ≡ TcpState.tcp_syn_received
        → (flag b offset syn_flag && not (flag b offset ack_flag)) ≡ false
        → ((flag b offset ack_flag && not (flag b offset syn_flag)) ≡ true
            → ack_of b offset ≢ t.send.next)
        → KnownCase es p t quiet
    closing :
        (c : Buf)
        → flag b offset rst_flag ≡ false
        → t.state ≡ TcpState.tcp_established
        → flag b offset fin_flag ≡ true
        → IsAnswer b offset hlen (ack_of_block (finished b offset t) none 0) c
        → KnownCase es p t (
          answered,
          c,
          set_node s p (record (finished b offset t) { state = TcpState.tcp_close_wait }),
        )
    answered_data :
        (m c : Buf)
        → flag b offset rst_flag ≡ false
        → t.state ≡ TcpState.tcp_established
        → flag b offset fin_flag ≡ false
        → 0 < data_len b offset
        → IsMessage (b.size - 120) w.file (is_get b (offset + hlen) (data_len b offset)) m
        → IsAnswer b offset hlen (ack_of_block (taken b offset t) (some m) m.size) c
        → KnownCase es p t (answered, c, set_node s p (on_sent (some m) m.size (taken b offset t)))
    no_data :
        flag b offset rst_flag ≡ false
        → t.state ≡ TcpState.tcp_established
        → flag b offset fin_flag ≡ false
        → data_len b offset ≡ 0
        → KnownCase es p t quiet
    waiting :
        flag b offset rst_flag ≡ false
        → t.state ≢ TcpState.tcp_syn_received
        → t.state ≢ TcpState.tcp_established
        → KnownCase es p t quiet

  -- every segment is of one of the two kinds
  pub data Handles (es : Entries) (r : ℕ × Buf × TcpServerInstance) : Type 0 where
    new : lookup id es ≡ none → NewCase es r → Handles es r
    known :
        (p : Address) (t : TcbNode)
        → lookup id es ≡ some p
        → s.nodes p ≡ some t
        → KnownCase es p t r
        → Handles es r

-- What the handling relies on: fresh memory for a block, steps for the list, room in the buffer for
-- the longest headers and for every response, and bytes in fresh arrays.
pub record IsReady (w : World) (b : Buf) (s : TcpServerInstance) (es : Entries) : Type 0 where
  pub mem : (p : Address) × (w.tcb_mem ≡ some p) × (s.nodes p ≡ none)
  pub steps : count es ≤ w.steps
  pub stack : IsBytes w.stack
  pub http : HasMemory w.http_mem
  pub servable : (f : File) → w.file ≡ some f → IsServable (b.size - 120) f
  pub room : 160 ≤ b.size
  pub small : b.size + 12 < 2 ^ 16
