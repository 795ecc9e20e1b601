-- ===== src/Legacy/Segment/SynAck.antt =====
-- The answer of the older server to a connection request.
use native.Mathlib.Nat.{add-zero}
use lazy_tcp.Prelude.{
  ℕ, ◌+◌, ◌*◌, ◌/◌, ◌%◌, ◌^◌, ◌≤◌, ◌≡◌, refl, arith, some, ok, Returns, sym, ◌∙◌,
}
use lazy_tcp.Word.{htons, htonl}
use lazy_tcp.Buf.{Buf, IsBytes, put8, put16, put32, with_bytes}
use lazy_tcp.Buf.Access.{load8-ok, load16-ok, load32-ok, store8-ok, store16-ok, store32-ok}
use lazy_tcp.Ip.{ip_swap_dst}
use lazy_tcp.Ip.Laws.{IsSwapped, ip_swap_dst-IsSwapped}
use lazy_tcp.Transport.{syn_flag, ack_flag}
use lazy_tcp.State.Update.{seq_of, window_of}
use lazy_tcp.Segment.Bytes.{ports, fields, ports-other, fields-other}
use lazy_tcp.Segment.Prepared.{tcp_hlen}
use lazy_tcp.Legacy.Block.{Address, TcbNode, put_node}
use lazy_tcp.Legacy.Connections.{TcpServerInstance}
use lazy_tcp.Legacy.Connections.Chain.{deref_node-ok}
use lazy_tcp.Legacy.Segment.{World, tcp_get_ticks, on_request, seal, tcp_null_syn_ack}
use lazy_tcp.Legacy.Segment.Bytes.{
  Wanted, bare, assembled-bare, assembled-IsHeaded, tcp_switch_port-ok,
}
use lazy_tcp.Legacy.Segment.Answer.{IsAnswer, IsReceived, seal-IsAnswer}

-- our initial number: microseconds and a random number
abbrev pub initial : World → ℕ
initial w = (w.tv_sec * 1000000 + w.tv_usec + w.rand) % 2 ^ 32

-- The block after the request: it expects the number behind the request, and has sent our initial
-- number, with nothing acknowledged.
abbrev pub requested : World → Buf → (offset : ℕ) → TcbNode → TcbNode
requested w b offset t =
    let recv = t.recv in
    record t {
      recv = record recv { irs = seq_of b offset; next = (seq_of b offset + 1) % 2 ^ 32 };
      send = record {
        unac = initial w;
        next = (initial w + 1) % 2 ^ 32;
        window = window_of b offset;
        iss = initial w;
      };
    }

pub requested-kept :
    (w : World) (b : Buf) (offset : ℕ) (t : TcbNode)
    → ((requested w b offset t).id ≡ t.id) × ((requested w b offset t).next ≡ t.next)
requested-kept w b offset t = (refl, refl)

-- SYN and ACK from our initial number, with the sender's next one acknowledged
abbrev pub syn_ack_of : TcbNode → Wanted
syn_ack_of t = bare t.send.iss t.recv.next (syn_flag + ack_flag) t.recv.window

-- The answer is sent and the block updated.
pub record Greets (b : Buf) (offset : ℕ) (s : TcpServerInstance) (p : Address) (t : TcbNode)
    (r : Buf × TcpServerInstance) : Type 0 where
  pub answer : IsAnswer b offset (tcp_hlen b offset) (syn_ack_of t) r.0
  pub states : r.1 ≡ record s { nodes = put_node s.nodes p (some t) }

module _ (w : World) (b : Buf) (offset : ℕ) (r : IsReceived b offset) (s : TcpServerInstance)
    (p : Address) (old : TcbNode) (held : s.nodes p ≡ some old) where
  abbrev hlen : ℕ
  hlen = tcp_hlen b offset

  abbrev t : TcbNode
  t = requested w b offset old

  abbrev out : Buf → ℕ → ℕ
  out b1 =
      put16
        (fields (ports b1.at offset) offset t.send.iss t.recv.next (hlen / 4 * 16)
          (syn_flag + ack_flag) (htons t.recv.window))
        2 (htons (offset + hlen))

  run_syn_ack :
      (b1 : Buf) (d : Buf)
      → ip_swap_dst b ≡ ok b1
      → IsSwapped b b1
      → seal w.stack (with_bytes b1 (out b1)) offset offset hlen ≡ ok d
      → tcp_null_syn_ack w b offset (some p) s
        ≡ ok (d, record s { nodes = put_node s.nodes p (some t) })
  unfolding tcp_null_syn_ack fields on_request tcp_get_ticks
  run_syn_ack b1 d swaps sw seals =
      let room : offset + 60 ≤ b.size = r.room in
      let low : 20 ≤ offset = r.long in
      let size : b1.size ≡ b.size = sw.size in
      let f2 = ports b1.at offset in
      let f3 = put32 f2 (offset + 4) (htonl t.send.iss) in
      let f4 = put32 f3 (offset + 8) (htonl t.recv.next) in
      let f5 = put8 f4 (offset + 12) (hlen / 4 * 16) in
      let f6 = put8 f5 (offset + 13) (syn_flag + ack_flag) in
      let f7 = put16 f6 (offset + 14) (htons t.recv.window) in
      let f8 = put16 f7 (offset + 18) 0 in
      let data_same : f2 (offset + 12) ≡ b.at (offset + 12) =
        ports-other b1.at offset (offset + 12) (omega arith)
        ∙ sw.other (offset + 12) (omega arith) in
      let first : f8 0 ≡ b.at 0 =
        fields-other f2 offset t.send.iss t.recv.next (hlen / 4 * 16) (syn_flag + ack_flag)
          (htons t.recv.window) 0 (omega arith)
        ∙ ports-other b1.at offset 0 (omega arith)
        ∙ sw.other 0 (omega arith) in
      rw (
        load32-ok b (offset + 4) (omega arith),
        deref_node-ok s.nodes p held,
        load16-ok b (offset + 14) (omega arith),
        swaps,
        tcp_switch_port-ok b1 offset (omega arith),
        load8-ok (with_bytes b1 f2) (offset + 12) (omega arith),
        data_same,
        store32-ok (with_bytes b1 f2) (offset + 4) (htonl t.send.iss) (omega arith),
        store32-ok (with_bytes b1 f3) (offset + 8) (htonl t.recv.next) (omega arith),
        store8-ok (with_bytes b1 f4) (offset + 12) (hlen / 4 * 16) (omega arith),
        store8-ok (with_bytes b1 f5) (offset + 13) (syn_flag + ack_flag) (omega arith),
        store16-ok (with_bytes b1 f6) (offset + 14) (htons t.recv.window) (omega arith),
        store16-ok (with_bytes b1 f7) (offset + 18) 0 (omega arith),
        load8-ok (with_bytes b1 f8) 0 (omega arith),
        first,
        r.header,
        store16-ok (with_bytes b1 f8) 2 (htons (offset + hlen)) (omega arith),
        seals,
      )

  -- For a received TCP packet, a stack of bytes and a pointer to a block, `tcp_null_syn_ack` meets
  -- no fault, makes the SYN-ACK with the numbers of `requested`, which its receiver accepts, and
  -- stores the block with these numbers.
  pub tcp_null_syn_ack-Greets :
      IsBytes w.stack → Returns (tcp_null_syn_ack w b offset (some p) s) (Greets b offset s p t)
  tcp_null_syn_ack-Greets stack_bytes =
      let (b1, swaps, sw) = ip_swap_dst-IsSwapped b r.bytes (omega (arith, r.room, r.long)) in
      let all = assembled-IsHeaded b b1 sw offset hlen (syn_ack_of t) r.long (λ j. omega arith) in
      let data_byte = r.bytes (offset + 12) in
      let (d, run, answer) =
        seal-IsAnswer b offset hlen r (syn_ack_of t) (omega (arith, r.room))
          (omega (arith, r.header)) _ all w.stack stack_bytes in
      let bytes =
        assembled-bare b1.at offset hlen t.send.iss t.recv.next (syn_flag + ack_flag)
          t.recv.window in
      (
        (d, record s { nodes = put_node s.nodes p (some t) }),
        run_syn_ack b1 d swaps sw (rw (sym bytes) (rw (add-zero hlen) at run)),
        record { answer = answer; states = refl },
      )
