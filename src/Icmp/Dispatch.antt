-- ===== src/Icmp/Dispatch.antt =====
-- Which packets the ICMP handler answers.
use lazy_tcp.Prelude.{
  ℕ, ◌+◌, ◌-◌, ◌^◌, ◌≤◌, ◌<◌, ◌≡◌, ◌≢◌, inl, inr, refl, arith, Bool, true, false, ltb, ◌==◌,
  if◌then◌else◌, Bool-cases, ok, ◌>>=◌, Returns,
}
use lazy_tcp.Buf.{Buf, IsBytes, load8}
use lazy_tcp.Buf.Access.{load8-ok}
use lazy_tcp.Checksum.Sum.{word_sum, checksum-ok}
use lazy_tcp.Checksum.{fold_carry}
use lazy_tcp.Word.{not16}
use lazy_tcp.Ip.Laws.{IsPacket}
use lazy_tcp.Icmp.{icmp_validate, icmp_echo_reply, icmp_dispatch}
use lazy_tcp.Icmp.Echo.{IsEchoReply, icmp_echo_reply-IsEchoReply}

-- The dispatcher answers exactly the valid echo requests, and leaves any other packet alone.
pub data IsDispatched (b : Buf) (len offset : ℕ) : ℕ × Buf → Type 0 where
  answered :
      (r : ℕ × Buf)
      → icmp_validate b offset (len - offset) ≡ ok true
      → b.at offset ≡ 8
      → IsEchoReply b len offset r
      → IsDispatched b len offset r
  invalid : icmp_validate b offset (len - offset) ≡ ok false → IsDispatched b len offset (0, b)
  no_request :
      icmp_validate b offset (len - offset) ≡ ok true
      → b.at offset ≢ 8
      → IsDispatched b len offset (0, b)

-- Validation reads nothing out of bounds, and what it accepts has a whole ICMP header.
pub icmp_validate-returns :
    (b : Buf) (icmp len : ℕ)
    → IsBytes b.at
    → icmp + len ≤ b.size
    → len < 2 ^ 16
    → Returns (icmp_validate b icmp len) λ v. v ≡ true → 8 ≤ len
unfolding icmp_validate
icmp_validate-returns b icmp len bytes fits small = elim (Bool-cases (ltb len 8)) [
  | inl short ↦ (false, rw short, λ e. cc)
  | inr long ↦ (
    not16 (fold_carry (word_sum b.at icmp len)) == 0,
    rw (long, checksum-ok b icmp len bytes fits small),
    λ e. ground arith,
  )
]

-- For a packet, `icmp_dispatch` meets no fault; it answers a valid echo request with the echo
-- reply and leaves any other packet as it is.
pub icmp_dispatch-IsDispatched :
    (b : Buf) (len offset : ℕ)
    → IsPacket b len offset
    → Returns (icmp_dispatch b len offset) (IsDispatched b len offset)
unfolding icmp_dispatch
icmp_dispatch-IsDispatched b len offset p =
    let (v, e, long) =
      icmp_validate-returns b offset (len - offset) p.bytes (omega arith) (omega arith) in
    rw e (branches v e long)
  where
    branches :
        (v : Bool)
        → icmp_validate b offset (len - offset) ≡ ok v
        → (v ≡ true → 8 ≤ len - offset)
        → Returns
            (if v
              then (load8 b (offset + 0) >>= λ type.
                  if type == 8 then icmp_echo_reply b len offset else ok (0, b))
              else ok (0, b))
            (IsDispatched b len offset)
    branches false e long = ((0, b), refl, invalid e)
    branches true e long =
        rw (load8-ok b (offset + 0) (omega (arith, long refl, p.fits)))
          (elim (Bool-cases (b.at (offset + 0) == 8)) [
            | inl echo ↦
                let (r, run, s) =
                  icmp_echo_reply-IsEchoReply b len offset p (omega (arith, long refl)) in
                (r, rw echo run, answered r e (ground arith) s)
            | inr other ↦ ((0, b), rw other, no_request e (ground arith))
          ])
