-- ===== src/Network.antt =====
-- The demultiplexer (refactor/network/network.c): a packet is validated and given to the handler
-- of its protocol.
pub mod Demux
use lazy_tcp.Prelude.{ℕ, Bool}
use lazy_tcp.Prelude.{◌==◌, if◌then◌else◌, Run, ok, ◌>>=◌}
use lazy_tcp.Buf.{Buf, load8}
use lazy_tcp.Layout.{Ipv4, ip_at}
use lazy_tcp.Ip.{ihl_of, ip_validate}
use lazy_tcp.Icmp.{proto_icmp, icmp_dispatch, icmp_dest_unreachable}
use lazy_tcp.Hash.{Table}
use lazy_tcp.Transport.{Env}
use lazy_tcp.Dispatch.{tcp_dispatch}

abbrev pub proto_tcp : ℕ
proto_tcp = 6

-- a handler that has no connections
abbrev pub keeping : Table → Run (ℕ × Buf) → Run (ℕ × Buf × Table)
keeping s m = do (n, b) ← m; ok (n, b, s)

unfoldable pub net_demux : Env → Buf → (len : ℕ) → Table → Run (ℕ × Buf × Table)
net_demux env b len s = do
  valid ← ip_validate b len
  if valid
      then (do
        proto ← load8 b (ip_at Ipv4.proto)
        v ← load8 b (ip_at Ipv4.version_ihl)
        let ihl = ihl_of v
        if proto == proto_icmp
            then keeping s (icmp_dispatch b len ihl)
            else if proto == proto_tcp
            then tcp_dispatch env b len ihl s
            else keeping s (icmp_dest_unreachable env.stack b len ihl))
      else ok (0, b, s)
