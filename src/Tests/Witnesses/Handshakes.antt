-- ===== src/Tests/Witnesses/Handshakes.antt =====
-- The handshake, at a request and at the acknowledgment that follows it.
use lazy_tcp.Prelude.{ℕ, ◌≡◌, refl, arith, Returns, sym, some_inj, List, [], ◌∷◌}
use lazy_tcp.Word.{ntohs, ntohl}
use lazy_tcp.Buf.{Buf, put16, with_bytes}
use lazy_tcp.Buf.Access.{put16-IsBytes}
use lazy_tcp.Ip.Laws.{IsPacket, IsPacket-same}
use lazy_tcp.Tcb.{Tcb, new_tcb}
use lazy_tcp.Hash.{Table}
use lazy_tcp.Transport.Verify.{sign, tcp_sum-signed}
use lazy_tcp.Transport.Sum.{tcp_sum}
use lazy_tcp.State.{set_tcb, on_syn}
use lazy_tcp.State.Connection.{IsConnection, IsRequested-IsConnection, on_syn-IsRequested}
use lazy_tcp.Dispatch.{tcp_dispatch}
use lazy_tcp.Hash.Ready.{OutOfMemory, no_growth, no_bucket}
use lazy_tcp.Dispatch.Good.{IsGood, HasBlock, written-IsGood, written-HasBlock}
use lazy_tcp.Dispatch.Safe.{IsReady, IsIntact, con_id}
use lazy_tcp.Dispatch.Handshake.{
  IsSynced, IsEstablished, request_answered, acknowledgment_establishes,
}
use lazy_tcp.Tests.Packets.{packet, packet-IsBytes, syn_packet, syn_packet-IsPacket}
use lazy_tcp.Tests.Tables.{
  env, client, cold_table, cold_table-IsReady, cold_table-IsGood, cold_table-absent, held_table,
  held_table-IsGood, held_table-HasBlock, held_block,
}

-- a segment with its checksum stored
abbrev signed_packet : Buf → Buf
signed_packet b = with_bytes b (sign b.at 40 20)

signed_packet-IsPacket : (b : Buf) → IsPacket b 40 20 → IsPacket (signed_packet b) 40 20
unfolding put16
signed_packet-IsPacket b p =
    IsPacket-same (signed_packet b) p refl (put16-IsBytes b.at 36 (tcp_sum b.at 40 20) p.bytes) refl

signed_packet-IsIntact : (b : Buf) → IsIntact (signed_packet b) 40 20
signed_packet-IsIntact b = sym (tcp_sum-signed b.at 40 20 (omega arith))

abbrev request : Buf
request = signed_packet syn_packet

cold_table-enough : ¬ OutOfMemory env.bucket_mem env.grow_mem cold_table client
cold_table-enough (no_growth ready full out) = cc ready
cold_table-enough (no_bucket cold k less out) = cc out

held_id : con_id request 20 ≡ client
unfolding put16 ntohs ntohl
held_id = refl

request_answered_example : Returns (tcp_dispatch env request 40 20 cold_table) (
    IsSynced env request 40 20
      (signed_packet-IsPacket syn_packet syn_packet-IsPacket)
      (omega arith)
      cold_table
      cold_table-IsGood
      cold_table-IsReady
      (signed_packet-IsIntact syn_packet)
      (new_tcb (con_id request 20))
      7)
unfolding put16 ntohs ntohl new_tcb
request_answered_example =
    request_answered env request 40 20 (signed_packet-IsPacket syn_packet syn_packet-IsPacket)
      (omega arith) cold_table cold_table-IsGood cold_table-IsReady
      (signed_packet-IsIntact syn_packet) 7 refl cold_table-enough cold_table-absent refl refl refl
      refl

-- the acknowledgment of our number 69999
abbrev ack_bytes : List ℕ
ack_bytes =
    69 ∷ 0 ∷ 0 ∷ 40 ∷ 0 ∷ 1 ∷ 0 ∷ 0 ∷ 64 ∷ 6 ∷ 102 ∷ 205 ∷ 10 ∷ 0 ∷ 0 ∷ 1 ∷ 10 ∷ 0 ∷ 0 ∷ 2 ∷ 18 ∷ 52
    ∷ 31 ∷ 144 ∷ 0 ∷ 0 ∷ 3 ∷ 233 ∷ 0 ∷ 1 ∷ 17 ∷ 112 ∷ 80 ∷ 16 ∷ 16 ∷ 0 ∷ 0 ∷ 0 ∷ 0 ∷ 0 ∷ []

abbrev ack_packet : Buf
ack_packet = packet ack_bytes

ack_packet-IsPacket : IsPacket ack_packet 40 20
ack_packet-IsPacket = record {
  bytes = packet-IsBytes ack_bytes;
  version = refl;
  header = refl;
  long = omega arith;
  inside = omega arith;
  fits = omega arith;
  small = omega arith;
}

abbrev acknowledgment : Buf
acknowledgment = signed_packet ack_packet

abbrev waiting_block : Tcb
waiting_block = on_syn 69999 1000 4096 held_block

waiting_block-IsConnection : IsConnection waiting_block
unfolding new_tcb
waiting_block-IsConnection =
    IsRequested-IsConnection 69999 1000 4096 held_block waiting_block refl refl
      (on_syn-IsRequested 69999 1000 4096 held_block)

abbrev waiting_table : Table
waiting_table = set_tcb held_table 5 waiting_block

waiting_table-IsGood : IsGood waiting_table
unfolding on_syn new_tcb
waiting_table-IsGood =
    written-IsGood held_table client 5 held_block waiting_block held_table-IsGood
      held_table-HasBlock refl waiting_block-IsConnection

waiting_table-HasBlock : HasBlock waiting_table (con_id acknowledgment 20) 5 waiting_block
unfolding on_syn new_tcb put16 ntohs ntohl
waiting_table-HasBlock =
    written-HasBlock held_table client 5 held_block waiting_block held_table-IsGood
      held_table-HasBlock refl waiting_block-IsConnection

waiting_table-IsReady : IsReady env waiting_table
waiting_table-IsReady = record {
  fresh = λ p e. (let n : p ≡ 7 = sym (some_inj e) in rw n refl);
  stack = λ i. omega arith;
  room = λ ready k less. omega arith;
}

acknowledgment_establishes_example : Returns (tcp_dispatch env acknowledgment 40 20 waiting_table) (
    IsEstablished env acknowledgment 40 20
      (signed_packet-IsPacket ack_packet ack_packet-IsPacket)
      (omega arith)
      waiting_table
      waiting_table-IsGood
      waiting_table-IsReady
      (signed_packet-IsIntact ack_packet)
      waiting_block
      5)
unfolding on_syn new_tcb put16 ntohs ntohl
acknowledgment_establishes_example =
    acknowledgment_establishes env acknowledgment 40 20
      (signed_packet-IsPacket ack_packet ack_packet-IsPacket) (omega arith) waiting_table
      waiting_table-IsGood waiting_table-IsReady (signed_packet-IsIntact ack_packet) 5 waiting_block
      waiting_table-HasBlock refl refl refl refl refl refl
