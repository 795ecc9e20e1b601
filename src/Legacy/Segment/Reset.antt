-- ===== src/Legacy/Segment/Reset.antt =====
-- The reset that answers a segment of no connection.
use native.Mathlib.Nat.{add-zero}
use lazy_tcp.Prelude.{ℕ, ◌+◌, ◌*◌, ◌/◌, ◌≤◌, ◌≡◌, refl, arith, if◌then◌else◌, ok, Returns, sym, ◌∙◌}
use lazy_tcp.Word.{u32, htons, ntohs, htonl}
use lazy_tcp.Buf.{Buf, IsBytes, put8, put16, put32, with_bytes}
use lazy_tcp.Buf.Access.{load8-ok, load16-ok, load32-ok, store8-ok, store16-ok, store32-ok}
use lazy_tcp.Ip.{ip_swap_dst}
use lazy_tcp.Ip.Laws.{ip_swap_dst-IsSwapped}
use lazy_tcp.Transport.{fin_flag, syn_flag, rst_flag, ack_flag}
use lazy_tcp.State.Update.{seq_of, ack_of}
use lazy_tcp.Segment.Bytes.{ports, fields}
use lazy_tcp.Segment.Prepared.{tcp_hlen}
use lazy_tcp.Segment.Reset.{flag, flag_bit, data_length}
use lazy_tcp.Legacy.Segment.{seal, tcp_null_rst}
use lazy_tcp.Legacy.Segment.Bytes.{
  Wanted, assembled, bare, assembled-bare, assembled-IsHeaded, fields-put16, tcp_switch_port-ok,
}
use lazy_tcp.Legacy.Segment.Answer.{IsAnswer, IsReceived, seal-IsAnswer}

-- A segment with an ACK is answered from its acknowledgment number, one without is acknowledged up
-- to its end.
abbrev pub reset_of : Buf → ℕ → Wanted
reset_of b offset =
    bare (if flag b offset ack_flag then ack_of b offset else 0)
      (if flag b offset ack_flag
        then 0
        else u32 (
            seq_of b offset
            + u32
                (data_length b offset + (flag_bit b offset fin_flag + flag_bit b offset syn_flag))))
      (if flag b offset ack_flag then rst_flag else rst_flag + ack_flag) 0

htons_zero : htons 0 ≡ 0
unfolding ntohs
htons_zero = refl

module _ (stack : ℕ → ℕ) (b : Buf) (offset : ℕ) (r : IsReceived b offset) where
  abbrev hlen : ℕ
  hlen = tcp_hlen b offset

  abbrev w : Wanted
  w = reset_of b offset

  abbrev stored : Buf → ℕ → ℕ
  stored b1 =
      fields (put16 (ports b1.at offset) 2 (htons (offset + hlen))) offset w.seq_num w.ack_num
        (hlen / 4 * 16) w.flags (htons 0)

  stored-assembled : (b1 : Buf) → stored b1 ≡ assembled b1.at offset hlen w
  stored-assembled b1 =
      fields-put16 (ports b1.at offset) offset w.seq_num w.ack_num (hlen / 4 * 16) w.flags (htons 0)
        (htons (offset + hlen)) (omega (arith, r.long))
      ∙ sym (assembled-bare b1.at offset hlen w.seq_num w.ack_num w.flags 0)

  run_rst :
      (b1 : Buf)
      → ip_swap_dst b ≡ ok b1
      → b1.size ≡ b.size
      → tcp_null_rst stack b offset ≡ seal stack (with_bytes b1 (stored b1)) offset offset hlen
  unfolding tcp_null_rst fields
  run_rst b1 swaps size =
      let room : offset + 60 ≤ b.size = r.room in
      let f2 = put16 (ports b1.at offset) 2 (htons (offset + hlen)) in
      let f3 = put32 f2 (offset + 4) (htonl w.seq_num) in
      let f4 = put32 f3 (offset + 8) (htonl w.ack_num) in
      let f5 = put8 f4 (offset + 12) (hlen / 4 * 16) in
      let f6 = put8 f5 (offset + 13) w.flags in
      let f7 = put16 f6 (offset + 14) 0 in
      rw (
        htons_zero,
        load8-ok b (offset + 13) (omega arith),
        load8-ok b (offset + 12) (omega arith),
        load8-ok b 0 (omega arith),
        load16-ok b 2 (omega arith),
        load32-ok b (offset + 8) (omega arith),
        load32-ok b (offset + 4) (omega arith),
        r.header,
        swaps,
        tcp_switch_port-ok b1 offset (omega arith),
        store16-ok (with_bytes b1 (ports b1.at offset)) 2 (htons (offset + hlen)) (omega arith),
        store32-ok (with_bytes b1 f2) (offset + 4) (htonl w.seq_num) (omega arith),
        store32-ok (with_bytes b1 f3) (offset + 8) (htonl w.ack_num) (omega arith),
        store8-ok (with_bytes b1 f4) (offset + 12) (hlen / 4 * 16) (omega arith),
        store8-ok (with_bytes b1 f5) (offset + 13) w.flags (omega arith),
        store16-ok (with_bytes b1 f6) (offset + 14) 0 (omega arith),
        store16-ok (with_bytes b1 f7) (offset + 18) 0 (omega arith),
      )

  -- For a received TCP packet and a stack of bytes, `tcp_null_rst` meets no fault and makes the
  -- reset with the numbers of `reset_of`, which its receiver accepts.
  pub tcp_null_rst-IsAnswer :
      IsBytes stack → Returns (tcp_null_rst stack b offset) (IsAnswer b offset hlen w)
  tcp_null_rst-IsAnswer stack_bytes =
      let (b1, swaps, s) = ip_swap_dst-IsSwapped b r.bytes (omega (arith, r.room, r.long)) in
      let all = assembled-IsHeaded b b1 s offset hlen w r.long (λ j. omega arith) in
      let data_byte = r.bytes (offset + 12) in
      let (d, run, answer) =
        seal-IsAnswer b offset hlen r w (omega (arith, r.room)) (omega (arith, r.header)) _ all
          stack stack_bytes in
      (d, run_rst b1 swaps s.size ∙ rw (stored-assembled b1) (rw (add-zero hlen) at run), answer)
