-- ===== src/Icmp/Echo.antt =====
-- The reply to an echo request.
use lazy_tcp.Prelude.{ℕ, ◌+◌, ◌-◌, ◌≤◌, ◌<◌, ◌≡◌, ◌⊎◌, refl, arith, ok, Returns, ◌∙◌, true}
use lazy_tcp.Buf.{Buf, IsBytes, word32, put8, with_bytes}
use lazy_tcp.Buf.Access.{store8-ok, put8-IsBytes, put8-other}
use lazy_tcp.Checksum.{checksum}
use lazy_tcp.Checksum.Stamp.{IsStamped, stamp, stamp-IsStamped}
use lazy_tcp.Checksum.Sum.{checksum-same}
use lazy_tcp.Layout.{Ipv4, ip_at}
use lazy_tcp.Ip.{ip_validate}
use lazy_tcp.Ip.Laws.{IsPacket, IsPacket-same}
use lazy_tcp.Ip.Response.{IsReturned, SwapsAndSums, swap_and_sum}
use lazy_tcp.Icmp.{icmp_checksum, icmp_validate, icmp_echo_reply}

-- What a ping gets: the request with type 0, addresses exchanged and both checksums valid; the
-- identifier, the sequence number and the payload are those of the request.
pub record IsEchoReply (b : Buf) (len offset : ℕ) (r : ℕ × Buf) : Type 0 where
  pub length : r.0 ≡ len
  pub size : r.1.size ≡ b.size
  pub bytes : IsBytes r.1.at
  pub ip_accepts : ip_validate r.1 len ≡ ok true
  pub icmp_accepts : icmp_validate r.1 offset (len - offset) ≡ ok true
  pub src : word32 r.1.at (ip_at Ipv4.src) ≡ word32 b.at (ip_at Ipv4.dst)
  pub dst : word32 r.1.at (ip_at Ipv4.dst) ≡ word32 b.at (ip_at Ipv4.src)
  pub type_zero : r.1.at offset ≡ 0
  pub code_zero : r.1.at (offset + 1) ≡ 0
  pub payload : (j : ℕ) → offset + 4 ≤ j → r.1.at j ≡ b.at j
  pub options : (j : ℕ) → 20 ≤ j → j < offset → r.1.at j ≡ b.at j

pub icmp_validate-of_sum :
    (b : Buf) (icmp len : ℕ)
    → 8 ≤ len
    → checksum b icmp len ≡ ok 0
    → icmp_validate b icmp len ≡ ok true
unfolding icmp_validate
icmp_validate-of_sum b icmp len long sums = rw sums (ground arith)

-- the request with type and code cleared
unfoldable pub cleared : Buf → ℕ → Buf
cleared b offset = with_bytes b (put8 (put8 b.at (offset + 0) 0) (offset + 1) 0)

module _ (b : Buf) (offset : ℕ) where
  pub cleared-other : (j : ℕ) → (j < offset) ⊎ (offset + 1 < j) → (cleared b offset).at j ≡ b.at j
  unfolding cleared
  cleared-other j h =
      put8-other _ (offset + 1) 0 j (ground arith) ∙ put8-other b.at (offset + 0) 0 j (ground arith)

  cleared-zero : ((cleared b offset).at offset ≡ 0) × ((cleared b offset).at (offset + 1) ≡ 0)
  unfolding cleared put8
  cleared-zero = (ground arith, ground arith)

  cleared-IsBytes : IsBytes b.at → IsBytes (cleared b offset).at
  unfolding cleared
  cleared-IsBytes h = put8-IsBytes _ (offset + 1) 0 (put8-IsBytes b.at (offset + 0) 0 h)

  pub cleared-size : (cleared b offset).size ≡ b.size
  unfolding cleared
  cleared-size = refl

module _ (b : Buf) (len offset : ℕ) (p : IsPacket b len offset) (long : offset + 8 ≤ len) where
  -- from the ICMP checksum and the exchange to what the sender of the request sees
  pub reply_parts :
      (c d : Buf)
      → IsStamped (cleared b offset) offset (offset + 2) (len - offset) c
      → IsReturned c len offset d
      → IsEchoReply b len offset (len, d)
  reply_parts c d s t =
      let back : (j : ℕ) → offset + 4 ≤ j → d.at j ≡ b.at j = λ j h.
        t.other j (ground arith)
        ∙ s.other j (ground arith)
        ∙ cleared-other b offset j (ground arith) in
      let head : (j : ℕ) → j < offset → c.at j ≡ b.at j =
        λ j h. s.other j (ground arith) ∙ cleared-other b offset j (ground arith) in
      let sums : checksum d offset (len - offset) ≡ ok 0 =
        checksum-same c d offset (len - offset) s.bytes t.packet.bytes
          (omega (arith, t.packet.fits, t.size, p.inside)) t.size (omega (arith, p.small))
          (λ j lo hi. t.other j (ground arith))
        ∙ s.sums in
      record {
        length = refl;
        size = t.size ∙ s.size ∙ cleared-size b offset;
        bytes = t.packet.bytes;
        ip_accepts = t.accepted;
        icmp_accepts = icmp_validate-of_sum d offset (len - offset) (omega arith) sums;
        src = ground (arith, t.src, head 16, head 17, head 18, head 19);
        dst = ground (arith, t.dst, head 12, head 13, head 14, head 15);
        type_zero =
            t.other offset (ground arith)
            ∙ s.other offset (ground arith)
            ∙ (cleared-zero b offset).0;
        code_zero =
            t.other (offset + 1) (ground arith)
            ∙ s.other (offset + 1) (ground arith)
            ∙ (cleared-zero b offset).1;
        payload = back;
        options = λ j lo hi. t.other j (ground arith) ∙ head j hi;
      }

  pub stamped :
      Returns
        (stamp (cleared b offset) offset (offset + 2) (len - offset))
        (IsStamped (cleared b offset) offset (offset + 2) (len - offset))
  stamped =
      stamp-IsStamped (cleared b offset) offset 1 (len - offset) (cleared-IsBytes b offset p.bytes)
        (omega (arith, cleared-size b offset, p.fits)) (omega (arith, p.small)) (omega arith)

  pub reply_run :
      (c : Buf)
      → stamp (cleared b offset) offset (offset + 2) (len - offset) ≡ ok c
      → (t : SwapsAndSums c len offset) → icmp_echo_reply b len offset ≡ ok (len, t.out)
  unfolding icmp_echo_reply icmp_checksum cleared
  reply_run c run t = rw (
    store8-ok b (offset + 0) 0 (omega (arith, p.fits)),
    store8-ok (with_bytes b (put8 b.at (offset + 0) 0)) (offset + 1) 0 (omega (arith, p.fits)),
    run,
    t.swaps,
    t.sums,
  )

  -- For a packet with at least a whole ICMP header, `icmp_echo_reply` meets no fault and its
  -- result is the reply that `IsEchoReply` describes.
  pub icmp_echo_reply-IsEchoReply :
      Returns (icmp_echo_reply b len offset) (IsEchoReply b len offset)
  icmp_echo_reply-IsEchoReply =
      let (c, run, s) = stamped in
      let first =
        s.other 0 (ground (arith, p.long)) ∙ cleared-other b offset 0 (ground (arith, p.long)) in
      let size = s.size ∙ cleared-size b offset in
      let t = swap_and_sum c len offset (IsPacket-same c p size s.bytes first) in
      ((len, t.out), reply_run c run t, reply_parts c t.out s t.returned)
