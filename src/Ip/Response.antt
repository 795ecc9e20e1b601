-- ===== src/Ip/Response.antt =====
-- The end of every response in place: the addresses exchanged, and the header summed.
use lazy_tcp.Prelude.{ℕ, ◌<◌, ◌≡◌, ◌⊎◌, arith, ok, ◌∙◌, true}
use lazy_tcp.Buf.{Buf, IsBytes, word32}
use lazy_tcp.Checksum.{checksum}
use lazy_tcp.Checksum.Sum.{checksum-same}
use lazy_tcp.Checksum.Stamp.{IsStamped}
use lazy_tcp.Layout.{Ipv4, ip_at}
use lazy_tcp.Ip.{ip_validate, ip_swap_dst, ip_checksum}
use lazy_tcp.Ip.Laws.{
  IsPacket, IsPacket-same, IsSwapped, ip_swap_dst-IsSwapped, ip_checksum-IsStamped,
  ip_validate-packet,
}

pub record IsReturned (b : Buf) (len offset : ℕ) (c : Buf) : Type 0 where
  pub packet : IsPacket c len offset
  pub size : c.size ≡ b.size
  pub sums : checksum c 0 offset ≡ ok 0
  pub accepted : ip_validate c len ≡ ok true
  pub src : word32 c.at (ip_at Ipv4.src) ≡ word32 b.at (ip_at Ipv4.dst)
  pub dst : word32 c.at (ip_at Ipv4.dst) ≡ word32 b.at (ip_at Ipv4.src)
  pub other : (j : ℕ) → (j < 10) ⊎ (19 < j) → c.at j ≡ b.at j

pub IsReturned-of :
    {b c d : Buf} {len offset : ℕ}
    → IsPacket b len offset
    → IsSwapped b c
    → IsStamped c 0 10 offset d
    → IsReturned b len offset d
IsReturned-of {b} {c} {d} {len} {offset} p s t =
    let same : (j : ℕ) → (j < 10) ⊎ (19 < j) → d.at j ≡ b.at j =
      λ j h. t.other j (ground arith) ∙ s.other j (ground arith) in
    let q = IsPacket-same d p (t.size ∙ s.size) t.bytes (same 0 (omega arith)) in
    record {
      packet = q;
      size = t.size ∙ s.size;
      sums = t.sums;
      accepted = ip_validate-packet d len offset q t.sums;
      src = ground (arith, t.other 12, t.other 13, t.other 14, t.other 15, s.src);
      dst = ground (arith, t.other 16, t.other 17, t.other 18, t.other 19, s.dst);
      other = same;
    }

-- The two calls in a row, as the ICMP handler makes them.
pub record SwapsAndSums (b : Buf) (len offset : ℕ) : Type 0 where
  pub swapped : Buf
  pub out : Buf
  pub swaps : ip_swap_dst b ≡ ok swapped
  pub sums : ip_checksum swapped ≡ ok out
  pub returned : IsReturned b len offset out

pub swap_and_sum : (b : Buf) (len offset : ℕ) → IsPacket b len offset → SwapsAndSums b len offset
swap_and_sum b len offset p =
    let (c, run, s) = ip_swap_dst-IsSwapped b p.bytes (omega arith) in
    let q = IsPacket-same c p s.size s.bytes (s.other 0 (omega arith)) in
    let (d, run', t) =
      ip_checksum-IsStamped c q.bytes (rw q.header q.long) (omega (arith, q.header)) in
    record {
      swapped = c;
      out = d;
      swaps = run;
      sums = run';
      returned = IsReturned-of p s (rw q.header at t);
    }

-- Writes behind the header leave it valid.
pub ip_validate-kept :
    {b : Buf} {len offset : ℕ} {c : Buf} (d : Buf)
    → IsReturned b len offset c
    → d.size ≡ c.size
    → IsBytes d.at
    → ((j : ℕ) → j < offset → d.at j ≡ c.at j)
    → ip_validate d len ≡ ok true
ip_validate-kept {len} {offset} {c} d t size bytes same =
    let p = t.packet in
    let q = IsPacket-same d p size bytes (same 0 (omega (arith, p.long))) in
    ip_validate-packet d len offset q (
      checksum-same c d 0 offset p.bytes bytes (omega (arith, p.inside, p.fits)) size
        (omega (arith, p.inside, p.small)) (λ j lo hi. same j (omega arith))
      ∙ t.sums)
