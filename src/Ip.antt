-- ===== src/Ip.antt =====
-- The IPv4 header (refactor/network/ip.h, refactor/network/ip.c), in place at the start of the
-- packet buffer.
pub mod Laws
pub mod Response
use lazy_tcp.Prelude.{ℕ, ◌*◌, ◌/◌, ◌%◌, Bool, true, false, not, ◌||◌}
use lazy_tcp.Prelude.{ltb, ◌==◌, if◌then◌else◌, Run, ok, fault, ◌>>=◌}
use lazy_tcp.Buf.{Buf, load8, load32, store16, store32}
use lazy_tcp.Checksum.{checksum}
use lazy_tcp.Layout.{Ipv4, ip_at, sizeof_ipv4}

-- `(ip->version_ihl & 0xf) * 4`
abbrev pub ihl_of : ℕ → ℕ
ihl_of version_ihl = version_ihl % 16 * 4

unfoldable pub ip_validate : Buf → ℕ → Run Bool
ip_validate b len = if ltb len sizeof_ipv4 then ok false else do
  v ← load8 b (ip_at Ipv4.version_ihl)
  if ltb (ihl_of v) 20 || ltb len (ihl_of v)
      then ok false
      else if not (v / 16 == 4)
      then ok false
      else do sum ← checksum b 0 (ihl_of v); ok (sum == 0)

unfoldable pub ip_swap_dst : Buf → Run Buf
ip_swap_dst b = do
  src ← load32 b (ip_at Ipv4.src)
  dst ← load32 b (ip_at Ipv4.dst)
  b' ← store32 b (ip_at Ipv4.src) dst
  store32 b' (ip_at Ipv4.dst) src

unfoldable pub ip_checksum : Buf → Run Buf
ip_checksum b = do
  v ← load8 b (ip_at Ipv4.version_ihl)
  cleared ← store16 b (ip_at Ipv4.checksum) 0
  sum ← checksum cleared 0 (ihl_of v)
  store16 cleared (ip_at Ipv4.checksum) sum
