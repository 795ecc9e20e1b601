-- ===== src/Transport/Verify.antt =====
-- A segment with the checksum stored in it passes verification.
use lazy_tcp.Prelude.{
  ℕ, ◌+◌, ◌-◌, ◌*◌, ◌^◌, ◌≤◌, ◌<◌, ◌≡◌, refl, arith, ok, ◌>>=◌, Returns, ap, sym, ◌∙◌,
}
use lazy_tcp.Word.{not16}
use lazy_tcp.Buf.{Buf, IsBytes, word16, put16, with_bytes, store16}
use lazy_tcp.Buf.Access.{put16-other, put16-IsBytes, word16-put16, store16-ok}
use lazy_tcp.Layout.{Tcp, tcp_at}
use lazy_tcp.Ip.Laws.{IsPacket, IsPacket-same}
use lazy_tcp.Transport.{tcp_checksum}
use lazy_tcp.Checksum.{fold_carry}
use lazy_tcp.Checksum.Fold.{fold_carry-checked}
use lazy_tcp.Checksum.Sum.{word_sum, word_sum-congr, word_sum-put16}
use lazy_tcp.Transport.Sum.{pseudo_sum, segment_sum, tcp_sum, tcp_checksum-ok}

pub pseudo_sum-same :
    (f g : ℕ → ℕ) (n : ℕ) → ((j : ℕ) → j < 20 → 9 ≤ j → g j ≡ f j) → pseudo_sum g n ≡ pseudo_sum f n
unfolding pseudo_sum
pseudo_sum-same f g n h = ground (arith, h 9, h 12, h 13, h 14, h 15, h 16, h 17, h 18, h 19)

-- The second of two stores at one place wins.
pub put16_twice : (f : ℕ → ℕ) (i v w j : ℕ) → put16 (put16 f i v) i w j ≡ put16 f i w j
unfolding put16
put16_twice f i v w j = ground arith

tcp_sum-lt : (f : ℕ → ℕ) (len offset : ℕ) → tcp_sum f len offset < 2 ^ 16
unfolding tcp_sum
tcp_sum-lt f len offset = omega arith

-- the bytes with the checksum stored
abbrev pub sign : (ℕ → ℕ) → (len offset : ℕ) → ℕ → ℕ
sign f len offset = put16 f (offset + 16) (tcp_sum f len offset)

module _ (f : ℕ → ℕ) (len offset : ℕ) (low : 20 ≤ offset) where
  pseudo_signed : pseudo_sum (sign f len offset) (len - offset) ≡ pseudo_sum f (len - offset)
  pseudo_signed =
      pseudo_sum-same f (sign f len offset) (len - offset)
        (λ j less lo. put16-other f (offset + 16) (tcp_sum f len offset) j (ground arith))

  -- The dispatcher's own test: the checksum of the result is the stored one.
  pub tcp_sum-signed :
      tcp_sum (sign f len offset) len offset ≡ word16 (sign f len offset) (offset + 16)
  tcp_sum-signed =
      let c = tcp_sum f len offset in
      let same =
        word_sum-congr (put16 (sign f len offset) (offset + 16) 0) (put16 f (offset + 16) 0) offset
          offset (len - offset) (λ j less. put16_twice f (offset + 16) c 0 (offset + j)) in
      let e : tcp_sum (sign f len offset) len offset ≡ c =
        unfold tcp_sum in
        ap (λ (s : ℕ). not16 (fold_carry s)) (omega (arith, same, pseudo_signed)) in
      e ∙ omega (arith, word16-put16 f (offset + 16) c, tcp_sum-lt f len offset)

  -- For an IP header of at least 20 bytes and a segment that reaches past its checksum field,
  -- pseudo header and segment with the checksum stored fold to a complement of 0.
  pub segment_sum-signed :
      offset + 18 ≤ len → not16 (fold_carry (segment_sum (sign f len offset) len offset)) ≡ 0
  unfolding segment_sum
  segment_sum-signed long =
      let c = tcp_sum f len offset in
      let g = put16 f (offset + 16) 0 in
      let n = len - offset in
      let same =
        word_sum-congr (sign f len offset) (put16 g (offset + 2 * 8) c) offset offset n
          (λ j less. sym (put16_twice f (offset + 16) 0 c (offset + j))) in
      let added = word_sum-put16 g offset 8 c n (omega arith) (tcp_sum-lt f len offset) in
      let whole : pseudo_sum (sign f len offset) n + word_sum (sign f len offset) offset n
          ≡ pseudo_sum f n + word_sum g offset n + c =
        omega (arith, same, added, pseudo_signed, word16-put16 f (offset + 16) 0) in
      ap (λ (s : ℕ). not16 (fold_carry s)) whole
      ∙ (unfold tcp_sum in fold_carry-checked (pseudo_sum f n + word_sum g offset n))

-- For a packet with room for the checksum and a stack of bytes, storing what `tcp_checksum`
-- computes meets no fault; the pseudo header and the segment then fold to a complement of 0, and
-- `tcp_checksum` computes the stored value again.
pub tcp_checksum-accepted :
    (stack : ℕ → ℕ) (b : Buf) (len offset : ℕ)
    → IsBytes stack
    → IsPacket b len offset
    → offset + 18 ≤ len
    → Returns
        (do (c, b') ← tcp_checksum stack b len offset; store16 b' (offset + tcp_at Tcp.checksum) c)
        λ d.
          (not16 (fold_carry (segment_sum d.at len offset)) ≡ 0)
          × (tcp_checksum stack d len offset ≡ ok (word16 d.at (offset + tcp_at Tcp.checksum), d))
tcp_checksum-accepted stack b len offset stack_bytes p long =
    let room : offset + 18 ≤ b.size = omega (arith, p.fits) in
    let d = with_bytes b (sign b.at len offset) in
    let first : d.at 0 ≡ b.at 0 =
      put16-other b.at (offset + 16) (tcp_sum b.at len offset) 0 (ground (arith, p.long)) in
    let q =
      IsPacket-same d p refl (put16-IsBytes b.at (offset + 16) (tcp_sum b.at len offset) p.bytes)
        first in
    (
      d,
      rw (
        tcp_checksum-ok stack b len offset stack_bytes p room,
        store16-ok b (offset + 16) (tcp_sum b.at len offset) (omega arith),
      ),
      (
        segment_sum-signed b.at len offset p.long long,
        tcp_checksum-ok stack d len offset stack_bytes q room
            ∙ ap (λ (c : ℕ). ok (c, d)) (tcp_sum-signed b.at len offset p.long),
      ),
    )
