-- ===== src/Legacy.antt =====
-- The older server of the repository's root (network/network.c, network/network.h): the checksum
-- of a packet and its classification. Its packed headers are those of `Layout`.
use lazy_tcp.Prelude.{ℕ, ◌/◌, ◌%◌, ltb, ◌==◌, if◌then◌else◌, Run, ok, ◌>>=◌}
use lazy_tcp.Word.{not16}
use lazy_tcp.Buf.{Buf, load8}
use lazy_tcp.Checksum.{sum_words, fold_carry}
use lazy_tcp.Layout.{Ipv4, ip_at}
pub mod Ip
pub mod Sums
pub mod Icmp
pub mod Ping
pub mod Block
pub mod Connections
pub mod Http
pub mod Segment
pub mod Device
pub mod Tcp
pub mod Main

-- `pack_len` is an `int`, and the loop treats a negative one as 0.
unfoldable pub packet_checksum : Buf → (raw_pack pack_len : ℕ) → Run ℕ
packet_checksum b raw_pack pack_len = do
  sum ← sum_words b raw_pack pack_len 0
  ok (not16 (fold_carry sum))

pub data Protocol : Type 0 where
  ipv4_icmp ipv4_tcp ipv6 ver_undf proto_undf : Protocol

-- the classification by version, header length and protocol
unfoldable pub protocol_of : (version_ihl proto : ℕ) → Protocol
protocol_of version_ihl proto =
    if version_ihl / 16 == 4
    then (if ltb (version_ihl % 16) 5
        then Protocol.proto_undf
        else if proto == 1
        then Protocol.ipv4_icmp
        else if proto == 6
        then Protocol.ipv4_tcp
        else Protocol.proto_undf)
    else if version_ihl / 16 == 6
    then Protocol.ipv6
    else Protocol.ver_undf

unfoldable pub packet_deserialize : Buf → Run Protocol
packet_deserialize b = do
  version_ihl ← load8 b (ip_at Ipv4.version_ihl)
  proto ← load8 b (ip_at Ipv4.proto)
  ok (protocol_of version_ihl proto)
