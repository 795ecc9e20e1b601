-- ===== src/Icmp.antt =====
-- The ICMP handler (refactor/network/icmp/icmp.h, refactor/network/icmp/icmp.c). A handler
-- returns the size of the response, 0 for none, and the buffer that it changed in place.
pub mod Dispatch
pub mod Echo
pub mod Quote
pub mod Unreachable
use lazy_tcp.Prelude.{ℕ, ◌+◌, ◌-◌, Bool, false}
use lazy_tcp.Prelude.{ltb, ◌==◌, if◌then◌else◌, Run, ok, ◌>>=◌}
use lazy_tcp.Word.{htons}
use lazy_tcp.Buf.{Buf, load8, store8, store16, memcpy}
use lazy_tcp.Checksum.{checksum}
use lazy_tcp.Layout.{Ipv4, ip_at, Icmp, icmp_at, sizeof_icmp}
use lazy_tcp.Ip.{ip_swap_dst, ip_checksum}

-- Type and code fields, the protocol number and the size of the transmission unit
abbrev pub icmp_echo : ℕ
icmp_echo = 8

abbrev pub icmp_dst_unreachable : ℕ
icmp_dst_unreachable = 3

abbrev pub icmp_proto_unreachable : ℕ
icmp_proto_unreachable = 2

abbrev pub proto_icmp : ℕ
proto_icmp = 1

abbrev pub mtu_size : ℕ
mtu_size = 1500

unfoldable pub icmp_checksum : Buf → ℕ → ℕ → Run Buf
icmp_checksum b icmp len = do
  cleared ← store16 b (icmp + icmp_at Icmp.checksum) 0
  sum ← checksum cleared icmp len
  store16 cleared (icmp + icmp_at Icmp.checksum) sum

unfoldable pub icmp_validate : Buf → ℕ → ℕ → Run Bool
icmp_validate b icmp len =
    if ltb len 8 then ok false else do sum ← checksum b icmp len; ok (sum == 0)

-- `stack` is what the 68 bytes of `icmp_pl` hold before they are written.
unfoldable pub icmp_dest_unreachable : (stack : ℕ → ℕ) → Buf → (len offset : ℕ) → Run (ℕ × Buf)
icmp_dest_unreachable stack b len offset =
    let dgram_len = if ltb (len - offset) 8 then len - offset else 8 in
    let icmp_pl_len = offset + dgram_len in
    let ip_len = offset + sizeof_icmp + icmp_pl_len in
    if ltb mtu_size ip_len then ok (0, b) else do
      let icmp_pl : Buf = record { size = 68; at = stack }
      icmp_pl' ← memcpy icmp_pl 0 b 0 offset
      icmp_pl'' ← memcpy icmp_pl' offset b offset dgram_len
      b1 ← store16 b (ip_at Ipv4.len) (htons ip_len)
      b2 ← store16 b1 (ip_at Ipv4.id) 0
      b3 ← store8 b2 (ip_at Ipv4.proto) proto_icmp
      b4 ← ip_swap_dst b3
      b5 ← ip_checksum b4
      b6 ← store8 b5 (offset + icmp_at Icmp.type) icmp_dst_unreachable
      b7 ← store8 b6 (offset + icmp_at Icmp.code) icmp_proto_unreachable
      b8 ← store16 b7 (offset + icmp_at Icmp.identifier) 0
      b9 ← store16 b8 (offset + icmp_at Icmp.sequence_no) 0
      b10 ← memcpy b9 (offset + sizeof_icmp) icmp_pl'' 0 icmp_pl_len
      b11 ← icmp_checksum b10 offset (sizeof_icmp + icmp_pl_len)
      ok (ip_len, b11)

unfoldable pub icmp_echo_reply : Buf → (len offset : ℕ) → Run (ℕ × Buf)
icmp_echo_reply b len offset = do
  b1 ← store8 b (offset + icmp_at Icmp.type) 0
  b2 ← store8 b1 (offset + icmp_at Icmp.code) 0
  b3 ← icmp_checksum b2 offset (len - offset)
  b4 ← ip_swap_dst b3
  b5 ← ip_checksum b4
  ok (len, b5)

unfoldable pub icmp_dispatch : Buf → (len offset : ℕ) → Run (ℕ × Buf)
icmp_dispatch b len offset = do
  valid ← icmp_validate b offset (len - offset)
  if valid
      then (do
        type ← load8 b (offset + icmp_at Icmp.type)
        if type == icmp_echo then icmp_echo_reply b len offset else ok (0, b))
      else ok (0, b)
