-- ===== src/Transport/Sum.antt =====
-- The value of the TCP checksum, and that computing it leaves the packet as it was.
use lazy_tcp.Prelude.{ℕ, ◌+◌, ◌-◌, ◌*◌, ◌^◌, ◌≤◌, ◌≡◌, arith, ok, ap, ◌∙◌, fun_ext}
use lazy_tcp.Word.{not16, htons, ntohs-lt}
use lazy_tcp.Buf.{Buf, IsBytes, word16, word32, put8, put16, put32, copy, with_bytes}
use lazy_tcp.Buf.Access.{
  load8-ok, load16-ok, load32-ok, store8-ok, store16-ok, store32-ok, memcpy-ok, put8-IsBytes,
  put16-IsBytes, put32-IsBytes, copy-IsBytes,
}
use lazy_tcp.Checksum.{fold_carry}
use lazy_tcp.Checksum.Sum.{word_sum, word_sum-append, word_sum-congr, checksum-ok}
use lazy_tcp.Ip.Laws.{IsPacket}
use lazy_tcp.Transport.{tcp_checksum}

-- the pseudo header as the code lays it out
unfoldable pub pseudo_bytes : (ℕ → ℕ) → (src dst proto n : ℕ) → ℕ → ℕ
pseudo_bytes stack src dst proto n =
    put16 (put8 (put8 (put32 (put32 stack 0 src) 4 dst) 8 0) 9 proto) 10 (htons n)

-- the words of the pseudo header, read from the packet
unfoldable pub pseudo_sum : (ℕ → ℕ) → ℕ → ℕ
pseudo_sum f n = word16 f 12 + word16 f 14 + word16 f 16 + word16 f 18 + 2 ^ 8 * f 9 + htons n

-- the sum of pseudo header and segment
unfoldable pub segment_sum : (ℕ → ℕ) → (len offset : ℕ) → ℕ
segment_sum f len offset = pseudo_sum f (len - offset) + word_sum f offset (len - offset)

pub pseudo_bytes-sum :
    (stack f : ℕ → ℕ) (n : ℕ)
    → IsBytes f
    → word_sum (pseudo_bytes stack (word32 f 12) (word32 f 16) (f 9) n) 0 12 ≡ pseudo_sum f n
unfolding pseudo_bytes pseudo_sum word_sum put8 put16 put32
pseudo_bytes-sum stack f n h =
    ground (arith, h 9, h 12, h 13, h 14, h 15, h 16, h 17, h 18, h 19, ntohs-lt n)

pub pseudo_bytes-IsBytes :
    (stack : ℕ → ℕ) (src dst proto n : ℕ)
    → IsBytes stack
    → IsBytes (pseudo_bytes stack src dst proto n)
unfolding pseudo_bytes
pseudo_bytes-IsBytes stack src dst proto n h = put16-IsBytes _ 10 (htons n) (
    put8-IsBytes _ 9 proto
      (put8-IsBytes _ 8 0 (put32-IsBytes _ 4 dst (put32-IsBytes stack 0 src h))))

-- `ghost_seg`
unfoldable pub ghost : (ℕ → ℕ) → (ℕ → ℕ) → (ℕ → ℕ) → (offset n : ℕ) → ℕ → ℕ
ghost stack p f offset n = copy (copy stack 0 p 0 12) 12 f offset n

pub ghost-sum :
    (stack p f : ℕ → ℕ) (offset n : ℕ)
    → word_sum (ghost stack p f offset n) 0 (12 + n) ≡ word_sum p 0 12 + word_sum f offset n
unfolding ghost copy
ghost-sum stack p f offset n =
    let head = word_sum-congr (ghost stack p f offset n) p 0 0 12 (λ j less. ground arith) in
    let tail = word_sum-congr (ghost stack p f offset n) f 12 offset n (λ j less. ground arith) in
    word_sum-append (ghost stack p f offset n) 0 6 n ∙ omega (arith, head, tail)

restored : (f : ℕ → ℕ) (i : ℕ) → IsBytes f → put16 (put16 f i 0) i (word16 f i) ≡ f
unfolding put16
restored f i h = fun_ext λ j. ground (arith, h i, h (i + 1))

-- the checksum over pseudo header and segment, its own field taken as 0
unfoldable pub tcp_sum : (ℕ → ℕ) → (len offset : ℕ) → ℕ
tcp_sum f len offset = not16 (
    fold_carry
      (pseudo_sum f (len - offset) + word_sum (put16 f (offset + 16) 0) offset (len - offset)))

module _ (stack : ℕ → ℕ) (b : Buf) (len offset : ℕ) (stack_bytes : IsBytes stack)
    (p : IsPacket b len offset) (room : offset + 18 ≤ b.size) where
  abbrev n : ℕ
  n = len - offset

  abbrev cleared : Buf
  cleared = with_bytes b (put16 b.at (offset + 16) 0)

  abbrev header : ℕ → ℕ
  header = pseudo_bytes stack (word32 b.at 12) (word32 b.at 16) (b.at 9) n

  ghost_buf : Buf
  ghost_buf = record { size = 12 + n; at = ghost stack header cleared.at offset n }

  ghost_buf-IsBytes : IsBytes ghost_buf.at
  unfolding ghost_buf ghost
  ghost_buf-IsBytes =
      copy-IsBytes _ 12 cleared.at offset n
        (copy-IsBytes stack 0 header 0 12 stack_bytes
          (pseudo_bytes-IsBytes stack (word32 b.at 12) (word32 b.at 16) (b.at 9) n stack_bytes))
        (put16-IsBytes b.at (offset + 16) 0 p.bytes)

  ghost_buf-sum :
      word_sum ghost_buf.at 0 (12 + n) ≡ pseudo_sum b.at n + word_sum cleared.at offset n
  unfolding ghost_buf
  ghost_buf-sum =
      ghost-sum stack header cleared.at offset n
      ∙ ap (λ (s : ℕ). s + word_sum cleared.at offset n) (pseudo_bytes-sum stack b.at n p.bytes)

  -- For a packet with room for the checksum and a stack of bytes, `tcp_checksum` stays inside its
  -- arrays, its value depends on the packet alone, and the packet after it is as before.
  pub tcp_checksum-ok : tcp_checksum stack b len offset ≡ ok (tcp_sum b.at len offset, b)
  unfolding tcp_checksum tcp_sum pseudo_bytes ghost ghost_buf
  tcp_checksum-ok =
      let at = offset + 16 in
      let p0 : Buf = record { size = 12; at = stack } in
      let p1 = with_bytes p0 (put32 stack 0 (word32 b.at 12)) in
      let p2 = with_bytes p0 (put32 p1.at 4 (word32 b.at 16)) in
      let p3 = with_bytes p0 (put8 p2.at 8 0) in
      let p4 = with_bytes p0 (put8 p3.at 9 (b.at 9)) in
      let p5 = with_bytes p0 header in
      let g0 : Buf = record { size = 12 + n; at = stack } in
      let g1 = with_bytes g0 (copy stack 0 header 0 12) in
      rw
        (
          load16-ok b at (omega arith),
          load32-ok b 12 (omega (arith, p.long)),
          load32-ok b 16 (omega (arith, p.long)),
          load8-ok b 9 (omega (arith, p.long)),
          store32-ok p0 0 (word32 b.at 12) (omega arith),
          store32-ok p1 4 (word32 b.at 16) (omega arith),
          store8-ok p2 8 0 (omega arith),
          store8-ok p3 9 (b.at 9) (omega arith),
          store16-ok p4 10 (htons n) (omega arith),
          store16-ok b at 0 (omega arith),
          memcpy-ok g0 0 p5 0 12 (omega arith) (omega arith),
          memcpy-ok g1 12 cleared offset n (omega arith) (omega (arith, p.inside, p.fits)),
          checksum-ok ghost_buf 0 (12 + n) ghost_buf-IsBytes (omega arith)
              (omega (arith, p.small, p.long)),
          store16-ok cleared at (word16 b.at at) (omega arith),
          ghost_buf-sum,
        )
        (ap
          (λ (f : ℕ → ℕ).
            ok (
              not16 (fold_carry (pseudo_sum b.at n + word_sum cleared.at offset n)),
              with_bytes b f,
            ))
          (restored b.at at p.bytes))
