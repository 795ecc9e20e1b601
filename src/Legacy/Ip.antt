-- ===== src/Legacy/Ip.antt =====
-- The IPv4 header of the older server (network/ip/ip.c). The exchange of the addresses is the code
-- of `Ip.ip_swap_dst`.
use lazy_tcp.Prelude.{ℕ, Run, ◌>>=◌}
use lazy_tcp.Buf.{Buf, store16}
use lazy_tcp.Layout.{Ipv4, ip_at}
use lazy_tcp.Legacy.{packet_checksum}

unfoldable pub ip_update_checksum : Buf → (pack_len : ℕ) → Run Buf
ip_update_checksum b pack_len = do
  cleared ← store16 b (ip_at Ipv4.checksum) 0
  sum ← packet_checksum cleared 0 pack_len
  store16 cleared (ip_at Ipv4.checksum) sum
