-- ===== src/Tests/Witnesses/Bytes.antt =====
-- The theorems on checksums, IPv4 and ICMP, at a ping and at a datagram.
use lazy_tcp.Prelude.{◌≡◌, refl, arith, Returns, ok, true}
use lazy_tcp.Word.{not16}
use lazy_tcp.Checksum.{fold_carry, checksum}
use lazy_tcp.Checksum.Fold.{IsFold, fold_carry-IsFold}
use lazy_tcp.Checksum.Sum.{word_sum, checksum-ok}
use lazy_tcp.Ip.{ip_validate, ip_checksum}
use lazy_tcp.Ip.Laws.{HasHeader, ip_validate-ip_checksum}
use lazy_tcp.Icmp.{icmp_dispatch, icmp_echo_reply, icmp_dest_unreachable}
use lazy_tcp.Icmp.Echo.{IsEchoReply, icmp_echo_reply-IsEchoReply}
use lazy_tcp.Icmp.Dispatch.{IsDispatched, icmp_dispatch-IsDispatched}
use lazy_tcp.Icmp.Unreachable.{IsUnreachable, icmp_dest_unreachable-IsUnreachable}
use lazy_tcp.Tests.Packets.{
  ping_packet, ping_bytes, packet-IsBytes, ping_packet-IsPacket, udp_packet, udp_packet-IsPacket,
}

fold_carry-IsFold_example : IsFold 200000 (fold_carry 200000)
fold_carry-IsFold_example = fold_carry-IsFold 200000

checksum-ok_example :
    checksum ping_packet 20 11 ≡ ok (not16 (fold_carry (word_sum ping_packet.at 20 11)))
checksum-ok_example =
    checksum-ok ping_packet 20 11 (packet-IsBytes ping_bytes) (omega arith) (omega arith)

ping_packet-HasHeader : HasHeader ping_packet
ping_packet-HasHeader = record {
  bytes = packet-IsBytes ping_bytes;
  version = refl;
  long = omega arith;
  fits = omega arith;
}

ip_validate-ip_checksum_example : Returns (ip_checksum ping_packet) λ c. ip_validate c 32 ≡ ok true
ip_validate-ip_checksum_example =
    ip_validate-ip_checksum ping_packet 32 ping_packet-HasHeader (omega arith)

icmp_echo_reply-IsEchoReply_example :
    Returns (icmp_echo_reply ping_packet 32 20) (IsEchoReply ping_packet 32 20)
icmp_echo_reply-IsEchoReply_example =
    icmp_echo_reply-IsEchoReply ping_packet 32 20 ping_packet-IsPacket (omega arith)

icmp_dispatch-IsDispatched_example :
    Returns (icmp_dispatch ping_packet 32 20) (IsDispatched ping_packet 32 20)
icmp_dispatch-IsDispatched_example =
    icmp_dispatch-IsDispatched ping_packet 32 20 ping_packet-IsPacket

icmp_dest_unreachable-IsUnreachable_example :
    Returns (icmp_dest_unreachable (λ _. 0) udp_packet 32 20) (IsUnreachable udp_packet 32 20)
icmp_dest_unreachable-IsUnreachable_example =
    icmp_dest_unreachable-IsUnreachable (λ _. 0) udp_packet 32 20 (λ i. omega arith)
      udp_packet-IsPacket (omega arith)
