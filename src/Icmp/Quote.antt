-- ===== src/Icmp/Quote.antt =====
-- The bytes that `icmp_dest_unreachable` writes: the changed IP header, the quotation and the ICMP
-- header, as functions of the packet.
use lazy_tcp.Prelude.{ℕ, ◌+◌, ◌-◌, ◌%◌, ◌^◌, ◌≤◌, ◌<◌, ◌≡◌, ◌⊎◌, arith, ltb, if◌then◌else◌}
use lazy_tcp.Word.{htons}
use lazy_tcp.Buf.{IsBytes, word16, put8, put16, copy}
use lazy_tcp.Buf.Access.{put8-IsBytes, put16-IsBytes, copy-IsBytes}

-- the bytes of the datagram that are quoted
abbrev pub quoted_len : ℕ → ℕ → ℕ
quoted_len len offset = if ltb (len - offset) 8 then len - offset else 8

abbrev pub response_len : ℕ → ℕ → ℕ
response_len len offset = offset + 8 + (offset + quoted_len len offset)

pub quoted_len-le :
    (len offset : ℕ)
    → offset ≤ len
    → (quoted_len len offset ≤ 8) × (offset + quoted_len len offset ≤ len)
quoted_len-le len offset h = (ground arith, ground arith)

-- the IP header of the response, before the exchange
unfoldable pub headed : (ℕ → ℕ) → ℕ → ℕ → ℕ
headed f ip_len = put8 (put16 (put16 f 2 (htons ip_len)) 4 0) 9 1

-- the local array `icmp_pl`
unfoldable pub payload : (ℕ → ℕ) → (ℕ → ℕ) → ℕ → ℕ → ℕ → ℕ
payload stack f offset n = copy (copy stack 0 f 0 offset) offset f offset n

-- the ICMP header and the quotation, before the checksum
unfoldable pub filled : (ℕ → ℕ) → ℕ → (ℕ → ℕ) → ℕ → ℕ → ℕ
filled f offset pl n =
    copy (put16 (put16 (put8 (put8 f (offset + 0) 3) (offset + 1) 2) (offset + 4) 0) (offset + 6) 0)
      (offset + 8) pl 0 n

pub headed-other : (f : ℕ → ℕ) (n j : ℕ) → (j < 2) ⊎ (9 < j) → headed f n j ≡ f j
unfolding headed put8 put16
headed-other f n j h = ground arith

pub headed_fields :
    (f : ℕ → ℕ) (n : ℕ) → (word16 (headed f n) 2 ≡ htons n % 2 ^ 16) × (headed f n 9 ≡ 1)
unfolding headed put8 put16
headed_fields f n = (ground arith, ground arith)

pub payload_lem :
    (stack f : ℕ → ℕ) (offset n j : ℕ) → j < offset + n → payload stack f offset n j ≡ f j
unfolding payload copy
payload_lem stack f offset n j h = ground arith

module _ (f : ℕ → ℕ) (offset : ℕ) (pl : ℕ → ℕ) (n : ℕ) where
  pub filled_before : (j : ℕ) → j < offset → filled f offset pl n j ≡ f j
  unfolding filled put8 put16 copy
  filled_before j h = ground arith

  pub filled_header :
      (filled f offset pl n offset ≡ 3)
      × (filled f offset pl n (offset + 1) ≡ 2)
      × (word16 (filled f offset pl n) (offset + 4) ≡ 0)
      × (word16 (filled f offset pl n) (offset + 6) ≡ 0)
  unfolding filled put8 put16 copy
  filled_header = (ground arith, ground arith, ground arith, ground arith)

  pub filled_quotes : (j : ℕ) → j < n → filled f offset pl n (offset + 8 + j) ≡ pl j
  unfolding filled copy
  filled_quotes j h = ground arith

pub headed-IsBytes : (f : ℕ → ℕ) (n : ℕ) → IsBytes f → IsBytes (headed f n)
unfolding headed
headed-IsBytes f n h = put8-IsBytes _ 9 1 (put16-IsBytes _ 4 0 (put16-IsBytes f 2 (htons n) h))

pub filled-IsBytes :
    (f : ℕ → ℕ) (offset : ℕ) (pl : ℕ → ℕ) (n : ℕ)
    → IsBytes f
    → IsBytes pl
    → IsBytes (filled f offset pl n)
unfolding filled
filled-IsBytes f offset pl n h k =
    copy-IsBytes _ (offset + 8) pl 0 n
      (put16-IsBytes _ (offset + 6) 0 (
        put16-IsBytes _ (offset + 4) 0
          (put8-IsBytes _ (offset + 1) 2 (put8-IsBytes f (offset + 0) 3 h))))
      k
