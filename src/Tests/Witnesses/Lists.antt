-- ===== src/Tests/Witnesses/Lists.antt =====
-- The theorems on the list of connections and on the segments of the older server.
use lazy_tcp.Prelude.{◌≡◌, refl, arith, Returns, ok, some}
use lazy_tcp.Buf.{Buf}
use lazy_tcp.Segment.Prepared.{tcp_hlen}
use lazy_tcp.Legacy.Block.{TcbNode, TcpConnectionId, new_node, put_node}
use lazy_tcp.Legacy.Connections.{
  TcpServerInstance, tcp_insert_tcb, tcp_get_state, tcp_remove_connection,
}
use lazy_tcp.Legacy.Connections.Chain.{lookup, nil, cons, Represents}
use lazy_tcp.Legacy.Connections.Walks.{tcp_get_state-lookup}
use lazy_tcp.Legacy.Connections.Insert.{IsInserted, tcp_insert_tcb-IsInserted}
use lazy_tcp.Legacy.Connections.Remove.{IsRemoved, tcp_remove_connection-IsRemoved}
use lazy_tcp.Legacy.Segment.{tcp_null_rst, tcp_null_syn_ack, tcp_send_ack, on_sent}
use lazy_tcp.Legacy.Segment.Answer.{IsAnswer}
use lazy_tcp.Legacy.Segment.Reset.{reset_of, tcp_null_rst-IsAnswer}
use lazy_tcp.Legacy.Segment.SynAck.{requested, Greets, tcp_null_syn_ack-Greets}
use lazy_tcp.Legacy.Segment.Ack.{ack_of_block, tcp_send_ack-IsAnswer}
use lazy_tcp.Tests.Older.{
  syn_unit, syn_unit-IsReceived, client_id, client_node, one_list, one_entry, one_list-Represents,
  world,
}

tcp_get_state-lookup_example : tcp_get_state 8 client_id one_list ≡ ok (lookup client_id one_entry)
tcp_get_state-lookup_example =
    tcp_get_state-lookup 8 client_id one_list one_entry one_list-Represents (omega arith)

-- a second connection, whose block is not in the list yet
abbrev other_id : TcpConnectionId
other_id = record { src_ip = 1; src_port = 2; dst_ip = 3; dst_port = 4 }

abbrev other_node : TcbNode
other_node = new_node other_id

abbrev loose_list : TcpServerInstance
loose_list = record one_list { nodes = put_node one_list.nodes 7 (some other_node) }

loose_list-Represents : Represents loose_list one_entry
unfolding new_node
loose_list-Represents = record { chain = cons refl refl refl nil; size = refl }

tcp_insert_tcb-IsInserted_example :
    Returns (tcp_insert_tcb 8 (some 7) loose_list) (IsInserted loose_list one_entry 7 other_node.id)
unfolding new_node
tcp_insert_tcb-IsInserted_example =
    tcp_insert_tcb-IsInserted loose_list 7 other_node refl refl 8 one_entry loose_list-Represents
      (omega arith) refl

tcp_remove_connection-IsRemoved_example :
    Returns (tcp_remove_connection 8 one_list 5) (IsRemoved one_list one_entry 5)
tcp_remove_connection-IsRemoved_example =
    tcp_remove_connection-IsRemoved 8 one_list one_entry 5 one_list-Represents refl (omega arith)

tcp_null_rst-IsAnswer_example :
    Returns
      (tcp_null_rst (λ _. 0) syn_unit 20)
      (IsAnswer syn_unit 20 (tcp_hlen syn_unit 20) (reset_of syn_unit 20))
tcp_null_rst-IsAnswer_example =
    tcp_null_rst-IsAnswer (λ _. 0) syn_unit 20 syn_unit-IsReceived (λ i. omega arith)

tcp_null_syn_ack-Greets_example :
    Returns
      (tcp_null_syn_ack world syn_unit 20 (some 5) one_list)
      (Greets syn_unit 20 one_list 5 (requested world syn_unit 20 client_node))
tcp_null_syn_ack-Greets_example =
    tcp_null_syn_ack-Greets world syn_unit 20 syn_unit-IsReceived one_list 5 client_node refl
      (λ i. omega arith)

-- a body of three bytes
abbrev body : Buf
body = record { size = 3; at = λ _. 65 }

tcp_send_ack-IsAnswer_example :
    (c : Buf) × (tcp_send_ack (λ _. 0) syn_unit 20 client_node (some body) 3
      ≡ ok (c, on_sent (some body) 3 client_node))
    × IsAnswer syn_unit 20 (tcp_hlen syn_unit 20) (ack_of_block client_node (some body) 3) c
tcp_send_ack-IsAnswer_example =
    tcp_send_ack-IsAnswer (λ _. 0) syn_unit 20 syn_unit-IsReceived client_node (some body) 3
      (λ i. omega arith) (λ i. omega arith, omega arith, omega arith) (omega arith) (omega arith)
