-- ===== src/Legacy/Icmp.antt =====
-- The ICMP handler of the older server (network/icmp/icmp.c), on a message at offset `icmp`.
use lazy_tcp.Prelude.{ℕ, ◌+◌, ◌-◌, ◌==◌, if◌then◌else◌, Run, ok, ◌>>=◌}
use lazy_tcp.Word.{ntohs}
use lazy_tcp.Buf.{Buf, load8, load16, store8, store16}
use lazy_tcp.Layout.{Ipv4, ip_at, Icmp, icmp_at}
use lazy_tcp.Ip.{ihl_of, ip_swap_dst}
use lazy_tcp.Legacy.{packet_checksum}
use lazy_tcp.Legacy.Ip.{ip_update_checksum}

unfoldable pub icmp_update_checksum : Buf → (icmp pack_len : ℕ) → Run Buf
icmp_update_checksum b icmp pack_len = do
  cleared ← store16 b (icmp + icmp_at Icmp.checksum) 0
  sum ← packet_checksum cleared icmp pack_len
  store16 cleared (icmp + icmp_at Icmp.checksum) sum

-- Where the total length is less than the header's, `icmp_len` is negative, which the checksum
-- treats as 0.
unfoldable pub icmp_echo_reply : Buf → (icmp : ℕ) → Run Buf
icmp_echo_reply b icmp = do
  b1 ← store8 b (icmp + icmp_at Icmp.type) 0
  b2 ← store8 b1 (icmp + icmp_at Icmp.code) 0
  v ← load8 b2 (ip_at Ipv4.version_ihl)
  len ← load16 b2 (ip_at Ipv4.len)
  b3 ← icmp_update_checksum b2 icmp (ntohs len - ihl_of v)
  b4 ← ip_swap_dst b3
  ip_update_checksum b4 (ihl_of v)

unfoldable pub icmp_dispatch : Buf → (icmp : ℕ) → Run Buf
icmp_dispatch b icmp = do
  type ← load8 b (icmp + icmp_at Icmp.type)
  if type == 8 then icmp_echo_reply b icmp else ok b
