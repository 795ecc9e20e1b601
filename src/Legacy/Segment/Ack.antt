-- ===== src/Legacy/Segment/Ack.antt =====
-- The acknowledgment of the older server, with or without a payload.
use lazy_tcp.Prelude.{
  ℕ, ◌+◌, ◌*◌, ◌/◌, ◌^◌, ◌≤◌, ◌<◌, ◌≡◌, refl, arith, true, ◌&&◌, ltb, Option, none, some, ok, ap,
  sym, ◌∙◌,
}
use lazy_tcp.Word.{u32, htons, htonl}
use lazy_tcp.Buf.{Buf, IsBytes, put8, put16, put32, copy, with_bytes}
use lazy_tcp.Buf.Access.{load8-ok, store8-ok, store16-ok, store32-ok, memcpy-ok}
use lazy_tcp.Ip.{ip_swap_dst}
use lazy_tcp.Ip.Laws.{IsSwapped, ip_swap_dst-IsSwapped}
use lazy_tcp.Transport.{psh_flag, ack_flag}
use lazy_tcp.Segment.Bytes.{ports, fields, ports-other}
use lazy_tcp.Segment.Prepared.{tcp_hlen}
use lazy_tcp.Legacy.Block.{TcbNode}
use lazy_tcp.Legacy.Segment.{seal, put_body, on_sent, tcp_send_ack}
use lazy_tcp.Legacy.Segment.Bytes.{
  Wanted, bare, assembled, assembled-bare, assembled-IsHeaded, fields_flags_last,
  tcp_switch_port-ok,
}
use lazy_tcp.Legacy.Segment.Answer.{IsAnswer, IsReceived, seal-IsAnswer}

-- our next number, what we expect, our window, and the body if there is one
abbrev pub ack_of_block : TcbNode → (body : Option Buf) → (body_len : ℕ) → Wanted
ack_of_block t none body_len = bare t.send.next t.recv.next ack_flag t.recv.window
ack_of_block t (some body) body_len = record {
  seq_num = t.send.next;
  ack_num = t.recv.next;
  flags = psh_flag + ack_flag;
  window = t.recv.window;
  body = body.at;
  body_len = body_len;
}

-- no body, or one of bytes that is not empty
abbrev pub IsBody : Option Buf → ℕ → Type 0
IsBody none body_len = body_len ≡ 0
IsBody (some body) body_len = IsBytes body.at × (0 < body_len) × (body_len ≤ body.size)

module _ (stack : ℕ → ℕ) (b : Buf) (offset : ℕ) (r : IsReceived b offset) (t : TcbNode) where
  abbrev hlen : ℕ
  hlen = tcp_hlen b offset

  -- the bytes with all fields but the flags
  abbrev flagless : Buf → ℕ → ℕ
  flagless b1 =
      put16
        (put16
          (put8
            (put32 (put32 (ports b1.at offset) (offset + 4) (htonl t.send.next)) (offset + 8)
              (htonl t.recv.next))
            (offset + 12) (hlen / 4 * 16))
          (offset + 14) (htons t.recv.window))
        (offset + 18) 0

  abbrev flagged : Buf → ℕ → ℕ → ℕ
  flagged b1 flags =
      fields (ports b1.at offset) offset t.send.next t.recv.next (hlen / 4 * 16) flags
        (htons t.recv.window)

  run_ack :
      (b1 b8 d : Buf) (body : Option Buf) (body_len : ℕ)
      → ip_swap_dst b ≡ ok b1
      → IsSwapped b b1
      → put_body (with_bytes b1 (flagless b1)) offset offset hlen body body_len ≡ ok b8
      → seal stack b8 offset offset (u32 (hlen + body_len)) ≡ ok d
      → tcp_send_ack stack b offset t body body_len ≡ ok (d, on_sent body body_len t)
  unfolding tcp_send_ack
  run_ack b1 b8 d body body_len swaps sw puts seals =
      let room : offset + 60 ≤ b.size = r.room in
      let low : 20 ≤ offset = r.long in
      let size : b1.size ≡ b.size = sw.size in
      let f2 = ports b1.at offset in
      let f3 = put32 f2 (offset + 4) (htonl t.send.next) in
      let f4 = put32 f3 (offset + 8) (htonl t.recv.next) in
      let f5 = put8 f4 (offset + 12) (hlen / 4 * 16) in
      let f6 = put16 f5 (offset + 14) (htons t.recv.window) in
      let data_same : f2 (offset + 12) ≡ b.at (offset + 12) =
        ports-other b1.at offset (offset + 12) (omega arith)
        ∙ sw.other (offset + 12) (omega arith) in
      let first : f2 0 ≡ b.at 0 =
        ports-other b1.at offset 0 (omega arith) ∙ sw.other 0 (omega arith) in
      rw (
        swaps,
        tcp_switch_port-ok b1 offset (omega arith),
        load8-ok (with_bytes b1 f2) 0 (omega arith),
        load8-ok (with_bytes b1 f2) (offset + 12) (omega arith),
        first,
        data_same,
        r.header,
        store32-ok (with_bytes b1 f2) (offset + 4) (htonl t.send.next) (omega arith),
        store32-ok (with_bytes b1 f3) (offset + 8) (htonl t.recv.next) (omega arith),
        store8-ok (with_bytes b1 f4) (offset + 12) (hlen / 4 * 16) (omega arith),
        store16-ok (with_bytes b1 f5) (offset + 14) (htons t.recv.window) (omega arith),
        store16-ok (with_bytes b1 f6) (offset + 18) 0 (omega arith),
        puts,
        seals,
      )

  module _ (b1 : Buf) (sw : IsSwapped b b1) where
    flags_set : (flags : ℕ) → put8 (flagless b1) (offset + 13) flags ≡ flagged b1 flags
    flags_set flags =
        fields_flags_last (ports b1.at offset) offset t.send.next t.recv.next (hlen / 4 * 16) flags
          (htons t.recv.window)

    -- flags, payload and total length make the bytes that are wanted
    put_body-assembled :
        (body : Option Buf) (body_len : ℕ)
        → IsBody body body_len
        → offset + hlen + body_len ≤ b.size
        → body_len < 2 ^ 31
        → put_body (with_bytes b1 (flagless b1)) offset offset hlen body body_len
          ≡ ok (with_bytes b1 (assembled b1.at offset hlen (ack_of_block t body body_len)))
    unfolding put_body assembled
    put_body-assembled none body_len is fits small =
        let room : offset + 60 ≤ b.size = r.room in
        let size : b1.size ≡ b.size = sw.size in
        let low : 20 ≤ offset = r.long in
        rw
          (
            store8-ok (with_bytes b1 (flagless b1)) (offset + 13) ack_flag (omega arith),
            flags_set ack_flag,
            store16-ok (with_bytes b1 (flagged b1 ack_flag)) 2 (htons (offset + hlen))
                (omega arith),
          )
          (ap (λ (f : ℕ → ℕ). ok (with_bytes b1 f))
            (sym (assembled-bare b1.at offset hlen t.send.next t.recv.next ack_flag t.recv.window)))
    put_body-assembled (some body) body_len (bytes, more, inside) fits small =
        let room : offset + 60 ≤ b.size = r.room in
        let size : b1.size ≡ b.size = sw.size in
        let low : 20 ≤ offset = r.long in
        let flags = psh_flag + ack_flag in
        let g = copy (flagged b1 flags) (offset + hlen) body.at 0 body_len in
        let positive : (ltb 0 body_len && ltb body_len (2 ^ 31)) ≡ true = ground arith in
        rw (
          positive,
          store8-ok (with_bytes b1 (flagless b1)) (offset + 13) flags (omega arith),
          flags_set flags,
          memcpy-ok (with_bytes b1 (flagged b1 flags)) (offset + hlen) body 0 body_len (omega arith)
              (omega arith),
          store16-ok (with_bytes b1 g) 2 (htons (offset + hlen + body_len)) (omega arith),
        )

  wanted_len :
      (body : Option Buf) (body_len : ℕ)
      → IsBody body body_len
      → (ack_of_block t body body_len).body_len ≡ body_len
  wanted_len none body_len is = sym is
  wanted_len (some body) body_len is = refl

  wanted-IsBytes :
      (body : Option Buf) (body_len : ℕ)
      → IsBody body body_len
      → IsBytes (ack_of_block t body body_len).body
  wanted-IsBytes none body_len is = λ j. omega arith
  wanted-IsBytes (some body) body_len is = is.0

  -- For a received TCP packet, a stack of bytes and no body or one that fits behind the headers,
  -- `tcp_send_ack` meets no fault and makes the acknowledgment, which its receiver accepts; the
  -- block is as `on_sent` says.
  pub tcp_send_ack-IsAnswer :
      (body : Option Buf) (body_len : ℕ)
      → IsBytes stack
      → IsBody body body_len
      → offset + hlen + body_len ≤ b.size
      → offset + hlen + body_len + 12 < 2 ^ 16
      → (c : Buf) × (tcp_send_ack stack b offset t body body_len ≡ ok (c, on_sent body body_len t))
        × IsAnswer b offset hlen (ack_of_block t body body_len) c
  tcp_send_ack-IsAnswer body body_len stack_bytes is fits small =
      let (b1, swaps, sw) = ip_swap_dst-IsSwapped b r.bytes (omega (arith, r.room, r.long)) in
      let w = ack_of_block t body body_len in
      let c = with_bytes b1 (assembled b1.at offset hlen w) in
      let len : w.body_len ≡ body_len = wanted_len body body_len is in
      let all = assembled-IsHeaded b b1 sw offset hlen w r.long (wanted-IsBytes body body_len is) in
      let (d, run, answer) =
        seal-IsAnswer b offset hlen r w (omega arith) (omega arith) c all stack stack_bytes in
      let exact : u32 (hlen + body_len) ≡ hlen + w.body_len = omega arith in
      (
        d,
        run_ack b1 c d body body_len swaps sw
            (put_body-assembled b1 sw body body_len is fits (omega arith))
            (ap (λ (n : ℕ). seal stack c offset offset n) exact ∙ run),
        answer,
      )
