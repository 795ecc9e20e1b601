-- ===== src/Layout.antt =====
-- The packed structures of the protocol headers: IPv4 (refactor/network/ip.h), ICMP
-- (refactor/network/icmp/icmp.h), TCP and its pseudo header (refactor/network/tcp/tcp.h). A field
-- is a constructor, and a function gives its offset in bytes.
use lazy_tcp.Prelude.{ℕ}

pub data Ipv4 : Type 0 where
  version_ihl tos len id flags_offset ttl proto checksum src dst : Ipv4

abbrev pub ip_at : Ipv4 → ℕ
ip_at Ipv4.version_ihl = 0
ip_at Ipv4.tos = 1
ip_at Ipv4.len = 2
ip_at Ipv4.id = 4
ip_at Ipv4.flags_offset = 6
ip_at Ipv4.ttl = 8
ip_at Ipv4.proto = 9
ip_at Ipv4.checksum = 10
ip_at Ipv4.src = 12
ip_at Ipv4.dst = 16

abbrev pub sizeof_ipv4 : ℕ
sizeof_ipv4 = 20

pub data Icmp : Type 0 where
  type code checksum identifier sequence_no : Icmp

abbrev pub icmp_at : Icmp → ℕ
icmp_at Icmp.type = 0
icmp_at Icmp.code = 1
icmp_at Icmp.checksum = 2
icmp_at Icmp.identifier = 4
icmp_at Icmp.sequence_no = 6

abbrev pub sizeof_icmp : ℕ
sizeof_icmp = 8

pub data Tcp : Type 0 where
  src_port dst_port seq_num ack_num data_offset flags window checksum urgent_ptr : Tcp

abbrev pub tcp_at : Tcp → ℕ
tcp_at Tcp.src_port = 0
tcp_at Tcp.dst_port = 2
tcp_at Tcp.seq_num = 4
tcp_at Tcp.ack_num = 8
tcp_at Tcp.data_offset = 12
tcp_at Tcp.flags = 13
tcp_at Tcp.window = 14
tcp_at Tcp.checksum = 16
tcp_at Tcp.urgent_ptr = 18

abbrev pub sizeof_tcp : ℕ
sizeof_tcp = 20

pub data Pseudo : Type 0 where
  src dst zero_byte proto tcp_len : Pseudo

abbrev pub pseudo_at : Pseudo → ℕ
pseudo_at Pseudo.src = 0
pseudo_at Pseudo.dst = 4
pseudo_at Pseudo.zero_byte = 8
pseudo_at Pseudo.proto = 9
pseudo_at Pseudo.tcp_len = 10

abbrev pub sizeof_pseudo : ℕ
sizeof_pseudo = 12
