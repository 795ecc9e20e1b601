-- ===== src/Icmp/Unreachable.antt =====
-- The destination unreachable response to a protocol that has no handler.
use lazy_tcp.Prelude.{ℕ, ◌+◌, ◌-◌, ◌≤◌, ◌<◌, ◌≡◌, refl, arith, ok, Returns, ◌∙◌, true, le→ltb}
use lazy_tcp.Word.{htons, ntohs, ntohs-htons, ntohs-lt}
use lazy_tcp.Buf.{Buf, IsBytes, word16, word32, put8, put16, copy, with_bytes}
use lazy_tcp.Buf.Access.{store8-ok, store16-ok, memcpy-ok, copy-IsBytes}
use lazy_tcp.Layout.{Ipv4, ip_at}
use lazy_tcp.Ip.{ip_validate}
use lazy_tcp.Icmp.Quote.{
  quoted_len, response_len, quoted_len-le, headed, payload, filled, headed-other, headed_fields,
  payload_lem, filled_before, filled_header, filled_quotes, headed-IsBytes, filled-IsBytes,
}
use lazy_tcp.Icmp.Echo.{icmp_validate-of_sum}
use lazy_tcp.Ip.Laws.{IsPacket}
use lazy_tcp.Ip.Response.{IsReturned, SwapsAndSums, swap_and_sum, ip_validate-kept}
use lazy_tcp.Checksum.Stamp.{IsStamped, stamp, stamp-IsStamped}
use lazy_tcp.Icmp.{mtu_size, icmp_validate, icmp_checksum, icmp_dest_unreachable}

-- The response: a valid ICMP message in a valid packet to the sender, which quotes the header and
-- the first 8 bytes of the datagram.
pub record IsUnreachable (b : Buf) (len offset : ℕ) (r : ℕ × Buf) : Type 0 where
  pub length : r.0 ≡ response_len len offset
  pub short : r.0 ≤ mtu_size
  pub size : r.1.size ≡ b.size
  pub bytes : IsBytes r.1.at
  pub ip_accepts : ip_validate r.1 r.0 ≡ ok true
  pub icmp_accepts : icmp_validate r.1 offset (r.0 - offset) ≡ ok true
  pub total : ntohs (word16 r.1.at (ip_at Ipv4.len)) ≡ r.0
  pub proto : r.1.at (ip_at Ipv4.proto) ≡ 1
  pub src : word32 r.1.at (ip_at Ipv4.src) ≡ word32 b.at (ip_at Ipv4.dst)
  pub dst : word32 r.1.at (ip_at Ipv4.dst) ≡ word32 b.at (ip_at Ipv4.src)
  pub type_code : (r.1.at offset ≡ 3) × (r.1.at (offset + 1) ≡ 2)
  pub quotes : (j : ℕ) → j < offset + quoted_len len offset → r.1.at (offset + 8 + j) ≡ b.at j

module _ (stack : ℕ → ℕ) (b : Buf) (len offset : ℕ) (stack_bytes : IsBytes stack)
    (p : IsPacket b len offset) (room : mtu_size ≤ b.size) where
  offset-le : offset ≤ 60
  offset-le = omega (arith, p.header)

  started : Buf
  started = with_bytes b (headed b.at (response_len len offset))

  started-IsPacket : IsPacket started (response_len len offset) offset
  unfolding started
  started-IsPacket =
      let first : headed b.at (response_len len offset) 0 ≡ b.at 0 =
        headed-other b.at (response_len len offset) 0 (omega arith) in
      record {
        bytes = headed-IsBytes b.at (response_len len offset) p.bytes;
        version = rw first p.version;
        header = rw first p.header;
        long = p.long;
        inside = omega arith;
        fits = ground (arith, offset-le, p.inside);
        small = ground (arith, offset-le, p.inside);
      }

  quoting : Buf → Buf
  quoting d = with_bytes d (
      filled d.at offset (payload stack b.at offset (quoted_len len offset))
        (offset + quoted_len len offset))

  quoting-IsBytes : (d : Buf) → IsBytes d.at → IsBytes (quoting d).at
  unfolding quoting payload
  quoting-IsBytes d h = filled-IsBytes d.at offset _ _ h (
      copy-IsBytes _ offset b.at offset _ (copy-IsBytes stack 0 b.at 0 offset stack_bytes p.bytes)
        p.bytes)

  unreachable_run :
      (t : SwapsAndSums started (response_len len offset) offset) (c : Buf)
      → stamp (quoting t.out) offset (offset + 2) (8 + (offset + quoted_len len offset)) ≡ ok c
      → icmp_dest_unreachable stack b len offset ≡ ok (response_len len offset, c)
  unfolding icmp_dest_unreachable icmp_checksum started quoting headed payload filled
  unreachable_run t c run =
      let n = quoted_len len offset in
      let (short, held) = quoted_len-le len offset p.inside in
      let pl : Buf = record { size = 68; at = stack } in
      let pl' = with_bytes pl (copy stack 0 b.at 0 offset) in
      let b1 = with_bytes b (put16 b.at 2 (htons (response_len len offset))) in
      let b2 = with_bytes b (put16 b1.at 4 0) in
      let d = t.out in
      let b6 = with_bytes d (put8 d.at (offset + 0) 3) in
      let b7 = with_bytes d (put8 b6.at (offset + 1) 2) in
      let b8 = with_bytes d (put16 b7.at (offset + 4) 0) in
      let b9 = with_bytes d (put16 b8.at (offset + 6) 0) in
      let size : d.size ≡ b.size = t.returned.size in
      rw (
        le→ltb mtu_size (response_len len offset) (omega arith),
        memcpy-ok pl 0 b 0 offset (omega arith) (omega (arith, p.fits, p.inside)),
        memcpy-ok pl' offset b offset n (omega arith) (omega (arith, p.fits)),
        store16-ok b 2 (htons (response_len len offset)) (omega arith),
        store16-ok b1 4 0 (omega arith),
        store8-ok b2 9 1 (omega arith),
        t.swaps,
        t.sums,
        store8-ok d (offset + 0) 3 (omega arith),
        store8-ok b6 (offset + 1) 2 (omega arith),
        store16-ok b7 (offset + 4) 0 (omega arith),
        store16-ok b8 (offset + 6) 0 (omega arith),
        memcpy-ok b9 (offset + 8) (with_bytes pl (payload stack b.at offset n)) 0 (offset + n)
            (omega arith) (omega arith),
        run,
      )

  -- from the exchange and the ICMP checksum to the response
  IsUnreachable-parts :
      (c d : Buf)
      → IsReturned started (response_len len offset) offset d
      → IsStamped (quoting d) offset (offset + 2) (8 + (offset + quoted_len len offset)) c
      → IsUnreachable b len offset (response_len len offset, c)
  unfolding started quoting
  IsUnreachable-parts c d t s =
      let n = quoted_len len offset in
      let pl = payload stack b.at offset n in
      let (t3, c2, _, _) = filled_header d.at offset pl (offset + n) in
      let (total, proto) = headed_fields b.at (response_len len offset) in
      let low = p.long in
      let covers : response_len len offset - offset ≡ 8 + (offset + n) = omega arith in
      let below : (j : ℕ) → j < offset → c.at j ≡ d.at j =
        λ j h. s.other j (ground arith) ∙ filled_before d.at offset pl (offset + n) j h in
      let head : (j : ℕ) → j < 10 → c.at j ≡ headed b.at (response_len len offset) j =
        λ j h. below j (omega arith) ∙ t.other j (ground arith) in
      let addresses : (j : ℕ) → 9 < j → headed b.at (response_len len offset) j ≡ b.at j =
        λ j h. headed-other b.at (response_len len offset) j (ground arith) in
      record {
        length = refl;
        short = omega (arith, offset-le, quoted_len-le len offset p.inside);
        size = s.size ∙ t.size;
        bytes = s.bytes;
        ip_accepts = ip_validate-kept c t s.size s.bytes below;
        icmp_accepts =
            rw covers (icmp_validate-of_sum c offset (8 + (offset + n)) (omega arith) s.sums);
        total = ground (
          arith,
          head 2,
          head 3,
          total,
          ntohs-htons (response_len len offset),
          ntohs-lt (response_len len offset),
          offset-le,
          quoted_len-le len offset p.inside,
        );
        proto = head 9 (omega arith) ∙ proto;
        src = ground (
          arith,
          below 12,
          below 13,
          below 14,
          below 15,
          t.src,
          addresses 16,
          addresses 17,
          addresses 18,
          addresses 19,
        );
        dst = ground (
          arith,
          below 16,
          below 17,
          below 18,
          below 19,
          t.dst,
          addresses 12,
          addresses 13,
          addresses 14,
          addresses 15,
        );
        type_code = (s.other offset (ground arith) ∙ t3, s.other (offset + 1) (ground arith) ∙ c2);
        quotes = λ j h.
            s.other (offset + 8 + j) (ground arith)
            ∙ filled_quotes d.at offset pl (offset + n) j h
            ∙ payload_lem stack b.at offset n j h;
      }

  -- For a packet in a buffer of at least the MTU and a stack of bytes, `icmp_dest_unreachable`
  -- meets no fault and its result is the answer that `IsUnreachable` describes.
  pub icmp_dest_unreachable-IsUnreachable :
      Returns (icmp_dest_unreachable stack b len offset) (IsUnreachable b len offset)
  icmp_dest_unreachable-IsUnreachable =
      let t = swap_and_sum started (response_len len offset) offset started-IsPacket in
      let p' = t.returned.packet in
      let size : (quoting t.out).size ≡ b.size = unfold quoting started in t.returned.size in
      let n = quoted_len len offset in
      let (c, run, s) =
        stamp-IsStamped (quoting t.out) offset 1 (8 + (offset + n)) (quoting-IsBytes t.out p'.bytes)
          (omega (arith, size, offset-le, quoted_len-le len offset p.inside, room))
          (omega (arith, offset-le, quoted_len-le len offset p.inside)) (omega arith) in
      (
        (response_len len offset, c),
        unreachable_run t c run,
        IsUnreachable-parts c t.out t.returned s,
      )
