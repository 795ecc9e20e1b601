-- ===== src/Segment/SynAck.antt =====
-- The answer to a valid connection request.
use lazy_tcp.Prelude.{
  ℕ, ◌+◌, ◌*◌, ◌/◌, ◌%◌, ◌^◌, ◌≤◌, ◌<◌, ◌≡◌, ◌⊎◌, refl, arith, ok, Returns, Option, true, ap, sym,
  ◌∙◌,
}
use lazy_tcp.Word.{not16, htons, ntohs, ntohl, ntohs-htons, ntohs-lt, ntohl-htonl, ntohl-lt}
use lazy_tcp.Buf.{Buf, IsBytes, word16, word32, put16, with_bytes}
use lazy_tcp.Buf.Access.{put16-IsBytes, put16-other}
use lazy_tcp.Checksum.{fold_carry}
use lazy_tcp.Checksum.Sum.{checksum-same}
use lazy_tcp.Layout.{Ipv4, ip_at, Tcp, tcp_at}
use lazy_tcp.Ip.{ip_validate}
use lazy_tcp.Ip.Laws.{
  IsPacket, header_length, ip_swap_dst-IsSwapped, ip_checksum-IsStamped, ip_validate-packet,
}
use lazy_tcp.Tcb.{Ptr, Tcb}
use lazy_tcp.Hash.{Table}
use lazy_tcp.State.{deref}
use lazy_tcp.Transport.Sum.{segment_sum, tcp_sum}
use lazy_tcp.Transport.Verify.{tcp_sum-signed, segment_sum-signed}
use lazy_tcp.Segment.{tcp_syn_ack}
use lazy_tcp.Segment.Bytes.{
  ports, ports_swapped, fields-other, fields_numbers, fields_rest, word32-same,
}
use lazy_tcp.Segment.Prepared.{
  tcp_hlen, headed, prepared, prepared_size, prepared-IsBytes, prepared-other, prepared_fields,
  prepared_total, IsPrepared, packet_out, size_out, run_syn_ack,
}

-- What the client gets: SYN and ACK set, our initial sequence number, its own plus one
-- acknowledged, our window, and an IP header that is valid. The TCP checksum is right where the
-- request was as long as the response is, that is, had no payload.
pub record IsSynAck (b : Buf) (len offset : ℕ) (t : Tcb) (r : ℕ × Buf) : Type 0 where
  pub length : r.0 ≡ offset + tcp_hlen b offset
  pub size : r.1.size ≡ b.size
  pub bytes : IsBytes r.1.at
  pub total : ntohs (word16 r.1.at (ip_at Ipv4.len)) ≡ r.0
  pub ip_accepts : ip_validate r.1 r.0 ≡ ok true
  pub src : word32 r.1.at (ip_at Ipv4.src) ≡ word32 b.at (ip_at Ipv4.dst)
  pub dst : word32 r.1.at (ip_at Ipv4.dst) ≡ word32 b.at (ip_at Ipv4.src)
  pub src_port : word16 r.1.at offset ≡ word16 b.at (offset + tcp_at Tcp.dst_port)
  pub dst_port : word16 r.1.at (offset + tcp_at Tcp.dst_port) ≡ word16 b.at offset
  pub seq_num : ntohl (word32 r.1.at (offset + tcp_at Tcp.seq_num)) ≡ t.send.iss % 2 ^ 32
  pub ack_num : ntohl (word32 r.1.at (offset + tcp_at Tcp.ack_num)) ≡ t.recv.next % 2 ^ 32
  pub flags : r.1.at (offset + tcp_at Tcp.flags) ≡ 0x12
  pub window : ntohs (word16 r.1.at (offset + tcp_at Tcp.window)) ≡ t.recv.window % 2 ^ 16
  pub dispatch_accepts :
      len ≡ r.0 → tcp_sum r.1.at r.0 offset ≡ word16 r.1.at (offset + tcp_at Tcp.checksum)
  pub receiver_accepts :
      len ≡ r.0 → 20 ≤ tcp_hlen b offset → not16 (fold_carry (segment_sum r.1.at r.0 offset)) ≡ 0

module _ (b : Buf) (len offset : ℕ) (p : IsPacket b len offset) (room : offset + 60 ≤ b.size)
    (t : Tcb) where
  abbrev hlen : ℕ
  hlen = tcp_hlen b offset

  module _ (b1 d : Buf) (h : IsPrepared b len offset p room t b1 d) where
    abbrev out : Buf
    out = with_bytes d (put16 d.at (offset + 16) (tcp_sum d.at len offset))

    out-IsBytes : IsBytes out.at
    out-IsBytes = put16-IsBytes d.at (offset + 16) _ h.stamped.bytes

    out_header : (j : ℕ) → j < offset → out.at j ≡ d.at j
    out_header j less = put16-other d.at (offset + 16) _ j (omega arith)

    out_packet : IsPacket out (offset + hlen) offset
    out_packet =
        let q = packet_out b len offset p room t b1 d h in
        let data_byte = p.bytes (offset + 12) in
        record {
          bytes = out-IsBytes;
          version = rw (out_header 0 (omega (arith, p.long))) q.version;
          header = rw (out_header 0 (omega (arith, p.long))) q.header;
          long = p.long;
          inside = omega arith;
          fits = omega (arith, size_out b len offset p room t b1 d h);
          small = omega (arith, q.header);
        }

    out_accepted : ip_validate out (offset + hlen) ≡ ok true
    out_accepted =
        let q = packet_out b len offset p room t b1 d h in
        ip_validate-packet out (offset + hlen) offset out_packet (
          checksum-same d out 0 offset q.bytes out-IsBytes (omega (arith, q.inside, q.fits)) refl
            (omega (arith, q.inside, q.small)) (λ j lo hi. out_header j (omega arith))
          ∙ h.stamped.sums)

    out_address : (j : ℕ) → 12 ≤ j → j < 20 → out.at j ≡ b1.at j
    out_address j lo hi =
        out_header j (omega (arith, p.long))
        ∙ h.stamped.other j (omega arith)
        ∙ prepared-other b len offset p room t b1 h.swapped j (omega (arith, p.long)) (omega arith)

    out_segment :
        (j : ℕ)
        → offset ≤ j
        → (j < offset + 16) ⊎ (offset + 17 < j)
        → out.at j ≡ headed b len offset p room t b1 j
    out_segment j lo hi =
        put16-other d.at (offset + 16) (tcp_sum d.at len offset) j (omega arith)
        ∙ h.stamped.other j (omega (arith, p.long))
        ∙ prepared_fields b len offset p room t b1 h.swapped j lo

    out_total : word16 out.at 2 ≡ htons (offset + hlen)
    out_total =
        let lo : 20 ≤ offset = p.long in
        omega (
          arith,
          out_header 2 (omega arith),
          out_header 3 (omega arith),
          h.stamped.other 2 (omega arith),
          h.stamped.other 3 (omega arith),
          prepared_total b len offset p room t b1 h.swapped,
        )

    out_port : (j : ℕ) → offset ≤ j → j < offset + 4 → out.at j ≡ ports b1.at offset j
    out_port j lo less =
        out_segment j lo (omega arith)
        ∙ fields-other (ports b1.at offset) offset t.send.iss t.recv.next (hlen / 4 * 16) 0x12
            (htons t.recv.window) j (omega arith)

    out_word32 :
        (k : ℕ)
        → k + 4 ≤ 16
        → word32 out.at (offset + k) ≡ word32 (headed b len offset p room t b1) (offset + k)
    out_word32 k less =
        word32-same out.at (headed b len offset p room t b1) (offset + k)
          (λ i h'. out_segment (offset + k + i) (omega arith) (omega arith))

    out_numbers :
        (ntohl (word32 out.at (offset + 4)) ≡ t.send.iss % 2 ^ 32)
        × (ntohl (word32 out.at (offset + 8)) ≡ t.recv.next % 2 ^ 32)
    out_numbers =
        let (seq, ack) =
          fields_numbers (ports b1.at offset) offset t.send.iss t.recv.next (hlen / 4 * 16) 0x12
            (htons t.recv.window) in
        let iss = t.send.iss in
        let next = t.recv.next in
        (
          ap ntohl (out_word32 4 (omega arith) ∙ seq ∙ omega (arith, ntohl-lt iss))
              ∙ ntohl-htonl iss,
          ap ntohl (out_word32 8 (omega arith) ∙ ack ∙ omega (arith, ntohl-lt next))
              ∙ ntohl-htonl next,
        )

    out_rest :
        (out.at (offset + 13) ≡ 0x12)
        × (ntohs (word16 out.at (offset + 14)) ≡ t.recv.window % 2 ^ 16)
    out_rest =
        let (_, flags, window, _) =
          fields_rest (ports b1.at offset) offset t.send.iss t.recv.next (hlen / 4 * 16) 0x12
            (htons t.recv.window) in
        let w = t.recv.window in
        let stored : word16 out.at (offset + 14) ≡ htons w = omega (
          arith,
          out_segment (offset + 14) (omega arith) (omega arith),
          out_segment (offset + 14 + 1) (omega arith) (omega arith),
          window,
          ntohs-lt w,
        ) in
        (
          out_segment (offset + 13) (omega arith) (omega arith) ∙ flags,
          ap ntohs stored ∙ ntohs-htons w,
        )

    out_ports :
        (word16 out.at offset ≡ word16 b.at (offset + 2))
        × (word16 out.at (offset + 2) ≡ word16 b.at offset)
    out_ports =
        let (src, dst) = ports_swapped b1.at offset h.swapped.bytes in
        let lo = p.long in
        let same = λ (j : ℕ) (less : 20 ≤ j). h.swapped.other j (omega arith) in
        let port = λ (j : ℕ) (at : offset ≤ j) (less : j < offset + 4). out_port j at less in
        (
          omega (
            arith,
            port offset (omega arith) (omega arith),
            port (offset + 1) (omega arith) (omega arith),
            src,
            same (offset + 2) (omega arith),
            same (offset + 2 + 1) (omega arith),
          ),
          omega (
            arith,
            port (offset + 2) (omega arith) (omega arith),
            port (offset + 2 + 1) (omega arith) (omega arith),
            dst,
            same offset (omega arith),
            same (offset + 1) (omega arith),
          ),
        )

    IsSynAck-parts : IsSynAck b len offset t (offset + hlen, out)
    IsSynAck-parts =
        let lo = p.long in
        let total = ntohs-htons (offset + hlen) in
        let (seq, ack) = out_numbers in
        let (flags, window) = out_rest in
        let (from, to) = out_ports in
        record {
          length = refl;
          size = size_out b len offset p room t b1 d h;
          bytes = out-IsBytes;
          total =
              ap ntohs out_total ∙ total ∙ omega (arith, p.bytes (offset + 12), out_packet.small);
          ip_accepts = out_accepted;
          src = omega (
            arith,
            out_address 12 (omega arith) (omega arith),
            out_address 13 (omega arith) (omega arith),
            out_address 14 (omega arith) (omega arith),
            out_address 15 (omega arith) (omega arith),
            h.swapped.src,
          );
          dst = omega (
            arith,
            out_address 16 (omega arith) (omega arith),
            out_address 17 (omega arith) (omega arith),
            out_address 18 (omega arith) (omega arith),
            out_address 19 (omega arith) (omega arith),
            h.swapped.dst,
          );
          src_port = from;
          dst_port = to;
          seq_num = seq;
          ack_num = ack;
          flags = flags;
          window = window;
          dispatch_accepts = λ e. rw (sym e) (tcp_sum-signed d.at len offset lo);
          receiver_accepts =
              λ e long. rw (sym e) (segment_sum-signed d.at len offset lo (omega arith));
        }

  -- For a packet with room for both headers, a stack of bytes and a `tcb` that points to the block
  -- `t`, `tcp_syn_ack` meets no fault and its result is the answer that `IsSynAck` describes.
  pub tcp_syn_ack-IsSynAck :
      (stack : ℕ → ℕ) (s : Table) (tcb : Option Ptr) (q : Ptr)
      → IsBytes stack
      → deref s.heap tcb ≡ ok (q, t)
      → Returns (tcp_syn_ack stack s tcb b len offset) (IsSynAck b len offset t)
  tcp_syn_ack-IsSynAck stack s tcb q stack_bytes held =
      let (b1, swaps, w) = ip_swap_dst-IsSwapped b p.bytes (omega (arith, p.long)) in
      let c = prepared b len offset p room t b1 in
      let first : c.at 0 ≡ b.at 0 =
        prepared-other b len offset p room t b1 w 0 (omega (arith, p.long)) (omega arith)
        ∙ w.other 0 (omega arith) in
      let header : header_length c ≡ offset = rw first p.header in
      let (d, sums, u) =
        ip_checksum-IsStamped c (prepared-IsBytes b len offset p room t b1 w) (rw header p.long)
          (omega (arith, header, prepared_size b len offset p room t b1 w, w.size)) in
      let h : IsPrepared b len offset p room t b1 d = record {
        swapped = w;
        stamped = rw header at u;
      } in
      (
        (offset + hlen, with_bytes d (put16 d.at (offset + 16) (tcp_sum d.at len offset))),
        run_syn_ack b len offset p room t stack s tcb q stack_bytes held b1 d swaps sums h,
        IsSynAck-parts b1 d h,
      )
