-- ===== src/Legacy/Ping.antt =====
-- The echo reply of the older server is that of the current one.
use lazy_tcp.Prelude.{
  ℕ, ◌+◌, ◌-◌, ◌≤◌, ◌<◌, ◌≡◌, ◌≢◌, refl, arith, inl, inr, ◌==◌, ok, Returns, Bool-cases, ◌∙◌,
}
use lazy_tcp.Word.{ntohs}
use lazy_tcp.Buf.{Buf, word16, put8, with_bytes}
use lazy_tcp.Buf.Access.{load8-ok, load16-ok, store8-ok}
use lazy_tcp.Checksum.Stamp.{stamp, stamp-IsStamped}
use lazy_tcp.Layout.{Ipv4, ip_at}
use lazy_tcp.Ip.{ip_swap_dst, ip_checksum}
use lazy_tcp.Ip.Laws.{IsPacket, IsPacket-same, ip_swap_dst-IsSwapped}
use lazy_tcp.Ip.Response.{SwapsAndSums, IsReturned-of}
use lazy_tcp.Icmp
use lazy_tcp.Icmp.Echo.{
  IsEchoReply, cleared, cleared-other, cleared-size, stamped, reply_run, reply_parts,
}
use lazy_tcp.Legacy.Sums.{ip_update_checksum-stamp, icmp_update_checksum-stamp}
use lazy_tcp.Legacy.Icmp.{icmp_echo_reply, icmp_dispatch}

-- An echo request gets the reply that the current server makes; any other message is left alone,
-- and so goes back as it came.
pub data IsPinged (b : Buf) (len offset : ℕ) (c : Buf) : Type 0 where
  echoed :
      b.at offset ≡ 8
      → IsEchoReply b len offset (len, c)
      → lazy_tcp.Icmp.icmp_echo_reply b len offset ≡ ok (len, c)
      → word16 c.at (ip_at Ipv4.len) ≡ word16 b.at (ip_at Ipv4.len)
      → IsPinged b len offset c
  left_alone : b.at offset ≢ 8 → c ≡ b → IsPinged b len offset c

ip_checksum-stamp :
    (d : Buf) (len offset : ℕ) → IsPacket d len offset → ip_checksum d ≡ stamp d 0 10 offset
unfolding ip_checksum
ip_checksum-stamp d len offset p =
    rw (load8-ok d 0 (omega (arith, p.long, p.inside, p.fits)), p.header)

module _ (b : Buf) (len offset : ℕ) (p : IsPacket b len offset) (long : offset + 8 ≤ len)
    (framed : ntohs (word16 b.at (ip_at Ipv4.len)) ≡ len) where
  run_echo_reply :
      (c d e : Buf)
      → stamp (cleared b offset) offset (offset + 2) (len - offset) ≡ ok c
      → ip_swap_dst c ≡ ok d
      → stamp d 0 10 offset ≡ ok e
      → icmp_echo_reply b offset ≡ ok e
  unfolding icmp_echo_reply cleared
  run_echo_reply c d e stamps swaps sums =
      let low = p.long in
      let fits = p.fits in
      let first : (cleared b offset).at 0 ≡ b.at 0 = cleared-other b offset 0 (ground arith) in
      let head : word16 (cleared b offset).at 2 ≡ word16 b.at 2 =
        omega (
          arith,
          cleared-other b offset 2 (ground arith),
          cleared-other b offset 3 (ground arith),
        ) in
      rw (
        store8-ok b (offset + 0) 0 (omega arith),
        store8-ok (with_bytes b (put8 b.at (offset + 0) 0)) (offset + 1) 0 (omega arith),
        load8-ok (cleared b offset) 0 (omega (arith, cleared-size b offset)),
        load16-ok (cleared b offset) 2 (omega (arith, cleared-size b offset)),
        first,
        head,
        framed,
        p.header,
        icmp_update_checksum-stamp (cleared b offset) offset (len - offset),
        stamps,
        swaps,
        ip_update_checksum-stamp d offset,
        sums,
      )

  -- For a packet with a whole ICMP header whose total length is that of the packet,
  -- `icmp_dispatch` of the older server meets no fault and does what `IsPinged` says.
  pub icmp_dispatch-IsPinged : Returns (icmp_dispatch b offset) (IsPinged b len offset)
  unfolding icmp_dispatch
  icmp_dispatch-IsPinged = elim (Bool-cases (b.at (offset + 0) == 8)) [
    | inl echo ↦
        let (c, stamps, s) = stamped b len offset p long in
        let size = s.size ∙ cleared-size b offset in
        let first =
          s.other 0 (ground (arith, p.long)) ∙ cleared-other b offset 0 (ground (arith, p.long)) in
        let q = IsPacket-same c p size s.bytes first in
        let (d, swaps, sw) =
          ip_swap_dst-IsSwapped c q.bytes (omega (arith, q.long, q.inside, q.fits)) in
        let q' = IsPacket-same d q sw.size sw.bytes (sw.other 0 (omega arith)) in
        let (e, sums, st) =
          stamp-IsStamped d 0 5 offset q'.bytes (omega (arith, q'.inside, q'.fits))
            (omega (arith, q'.inside, q'.small)) (omega (arith, q'.long)) in
        let back = IsReturned-of q sw st in
        let kept : (j : ℕ) → j < 10 → e.at j ≡ b.at j = λ j less.
          back.other j (omega arith)
          ∙ s.other j (ground (arith, p.long))
          ∙ cleared-other b offset j (ground (arith, p.long)) in
        let whole : SwapsAndSums c len offset = record {
          swapped = d;
          out = e;
          swaps = swaps;
          sums = ip_checksum-stamp d len offset q' ∙ sums;
          returned = back;
        } in
        (
          e,
          rw (load8-ok b (offset + 0) (omega (arith, p.fits)), echo)
              (run_echo_reply c d e stamps swaps sums),
          echoed (ground arith) (reply_parts b len offset p long c e s back)
              (reply_run b len offset p long c stamps whole)
              (omega (arith, kept 2 (omega arith), kept 3 (omega arith))),
        )
    | inr other ↦ (
      b,
      rw (load8-ok b (offset + 0) (omega (arith, p.fits)), other),
      left_alone (ground arith) refl,
    )
  ]
