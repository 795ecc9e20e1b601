-- ===== src/Tests/Witnesses/Segments.antt =====
-- The theorems on segments, connections and the demultiplexer, at a connection request.
use lazy_tcp.Prelude.{◌≡◌, refl, arith, Returns, ok, ◌>>=◌, true, false, some}
use lazy_tcp.Word.{not16}
use lazy_tcp.Checksum.{fold_carry}
use lazy_tcp.Buf.{word16, store16}
use lazy_tcp.Tcb.{Edge}
use lazy_tcp.Transport.{Flags, tcp_checksum}
use lazy_tcp.Transport.Sum.{tcp_sum, segment_sum, tcp_checksum-ok}
use lazy_tcp.Transport.Verify.{tcp_checksum-accepted}
use lazy_tcp.State.{tcb_state_update}
use lazy_tcp.State.Connection.{new_tcb-IsConnection, IsConnection-HasWindow}
use lazy_tcp.State.Update.{Updates, tcb_state_update-Updates}
use lazy_tcp.Segment.{tcp_syn_ack, tcp_rst}
use lazy_tcp.Segment.SynAck.{IsSynAck, tcp_syn_ack-IsSynAck}
use lazy_tcp.Segment.Reset.{IsReset, tcp_rst-IsReset}
use lazy_tcp.State.Update.{deref-ok}
use lazy_tcp.Dispatch.{edge_of, find_or_insert, tcp_dispatch}
use lazy_tcp.Dispatch.Find.{Obtains, find_or_insert-Obtains}
use lazy_tcp.Dispatch.Edges.{Classifies, edge_of-Classifies}
use lazy_tcp.Dispatch.Good.{IsGood}
use lazy_tcp.Dispatch.Safe.{Dispatches, tcp_dispatch-Dispatches}
use lazy_tcp.Network.{net_demux}
use lazy_tcp.Network.Demux.{Demuxes, net_demux-Demuxes}
use lazy_tcp.Tests.Packets.{syn_packet, syn_bytes, packet-IsBytes, syn_packet-IsPacket}
use lazy_tcp.Tests.Tables.{
  client, env, cold_table, cold_table-IsTable, cold_table-IsGood, cold_table-IsReady, held_block,
  held_table, held_table-IsTable, held_table-Holds,
}

tcp_checksum-ok_example :
    tcp_checksum (λ _. 0) syn_packet 40 20 ≡ ok (tcp_sum syn_packet.at 40 20, syn_packet)
tcp_checksum-ok_example =
    tcp_checksum-ok (λ _. 0) syn_packet 40 20 (λ i. omega arith) syn_packet-IsPacket (omega arith)

tcp_checksum-accepted_example :
    Returns
      (do (c, b') ← tcp_checksum (λ _. 0) syn_packet 40 20; store16 b' 36 c)
      λ d.
        (not16 (fold_carry (segment_sum d.at 40 20)) ≡ 0)
        × (tcp_checksum (λ _. 0) d 40 20 ≡ ok (word16 d.at 36, d))
tcp_checksum-accepted_example =
    tcp_checksum-accepted (λ _. 0) syn_packet 40 20 (λ i. omega arith) syn_packet-IsPacket
      (omega arith)

tcp_syn_ack-IsSynAck_example :
    Returns
      (tcp_syn_ack (λ _. 0) held_table (some 5) syn_packet 40 20)
      (IsSynAck syn_packet 40 20 held_block)
tcp_syn_ack-IsSynAck_example =
    tcp_syn_ack-IsSynAck syn_packet 40 20 syn_packet-IsPacket (omega arith) held_block (λ _. 0)
      held_table (some 5) 5 (λ i. omega arith) (deref-ok held_table.heap 5 refl)

tcp_rst-IsReset_example :
    Returns
      (tcp_rst env held_table (some 5) syn_packet 20)
      (IsReset env syn_packet 20 held_table client 5)
tcp_rst-IsReset_example =
    tcp_rst-IsReset env syn_packet 40 20 syn_packet-IsPacket (omega arith) held_table client 5
      held_table-IsTable held_table-Holds

tcb_state_update-Updates_example :
    Returns
      (tcb_state_update env syn_packet 20 (some 5) Edge.evt_syn held_table)
      (Updates env syn_packet 20 held_table client 5 held_block Edge.evt_syn)
tcb_state_update-Updates_example =
    tcb_state_update-Updates env syn_packet 20 held_table client 5 held_block Edge.evt_syn
      (omega arith) held_table-IsTable held_table-Holds refl
      (IsConnection-HasWindow held_block (new_tcb-IsConnection client))

abbrev syn_flags : Flags
syn_flags = record { fin = false; syn = true; rst = false; psh = false; ack = false }

edge_of-Classifies_example :
    Classifies syn_flags client.dst_port held_block.state
      (edge_of syn_flags client held_block.state)
edge_of-Classifies_example =
    edge_of-Classifies syn_flags client held_block (new_tcb-IsConnection client)

find_or_insert-Obtains_example :
    Returns (find_or_insert env client cold_table) (Obtains env client cold_table)
find_or_insert-Obtains_example =
    find_or_insert-Obtains env client cold_table cold_table-IsTable cold_table-IsReady.room
      cold_table-IsReady.fresh

tcp_dispatch-Dispatches_example :
    Returns
      (tcp_dispatch env syn_packet 40 20 cold_table)
      λ r. Dispatches env syn_packet 40 20 cold_table r × IsGood r.2
tcp_dispatch-Dispatches_example =
    tcp_dispatch-Dispatches env syn_packet 40 20 syn_packet-IsPacket (omega arith) cold_table
      cold_table-IsGood cold_table-IsReady

net_demux-Demuxes_example :
    Returns
      (net_demux env syn_packet 40 cold_table)
      λ r. Demuxes env syn_packet 40 cold_table r × IsGood r.2
net_demux-Demuxes_example =
    net_demux-Demuxes env syn_packet 40 cold_table (packet-IsBytes syn_bytes) (omega arith)
      (omega arith) (omega arith) cold_table-IsGood cold_table-IsReady
