-- ===== src/Tests/Older.antt =====
-- Packets, connections and surroundings of the older server.
use lazy_tcp.Prelude.{
  ℕ, ◌%◌, ◌^◌, ◌≤◌, ◌≡◌, refl, arith, true, Option, none, some, List, [], ◌∷◌, some_inj, sym,
}
use lazy_tcp.Buf.{Buf, IsBytes}
use lazy_tcp.Ip.Laws.{IsPacket}
use lazy_tcp.Legacy.Block.{Address, TcbNode, TcpConnectionId, new_node, put_node}
use lazy_tcp.Legacy.Connections.{TcpServerInstance}
use lazy_tcp.Legacy.Connections.Chain.{Entries, count, Chain, nil, cons, Represents}
use lazy_tcp.Legacy.Http.{File, HttpMemory, length, decimal, digits, response_headers}
use lazy_tcp.Legacy.Http.Response.{HasMemory, IsServable}
use lazy_tcp.Legacy.Segment.{World}
use lazy_tcp.Legacy.Segment.Answer.{IsReceived}
use lazy_tcp.Legacy.Tcp.Cases.{connection, IsReady}
use lazy_tcp.Legacy.Main.{Arrival}
use lazy_tcp.Tests.Packets.{nth, syn_bytes, ping_bytes}

-- a buffer of an MTU and one byte
abbrev pub unit : List ℕ → Buf
unit bytes = record { size = 1501; at = λ i. nth bytes i % 2 ^ 8 }

pub unit-IsBytes : (bytes : List ℕ) → IsBytes (unit bytes).at
unit-IsBytes bytes i = omega arith

abbrev pub syn_unit : Buf
syn_unit = unit syn_bytes

abbrev pub ping_unit : Buf
ping_unit = unit ping_bytes

pub syn_unit-IsReceived : IsReceived syn_unit 20
syn_unit-IsReceived = record {
  bytes = unit-IsBytes syn_bytes;
  version = refl;
  header = refl;
  long = omega arith;
  proto = refl;
  room = omega arith;
}

pub ping_unit-IsPacket : IsPacket ping_unit 32 20
ping_unit-IsPacket = record {
  bytes = unit-IsBytes ping_bytes;
  version = refl;
  header = refl;
  long = omega arith;
  inside = omega arith;
  fits = omega arith;
  small = omega arith;
}

-- no connections, and the one of the request
abbrev pub empty_list : TcpServerInstance
empty_list = record { nodes = λ _. none; head = none; size = 0 }

abbrev pub client_id : TcpConnectionId
client_id = connection syn_unit 20

abbrev pub client_node : TcbNode
client_node = new_node client_id

abbrev pub one_list : TcpServerInstance
one_list = record { nodes = put_node (λ _. none) 5 (some client_node); head = some 5; size = 1 }

abbrev pub one_entry : Entries
one_entry = (5, client_id) ∷ []

pub empty_list-Represents : Represents empty_list []
empty_list-Represents = record { chain = nil; size = refl }

pub one_list-Represents : Represents one_list one_entry
unfolding new_node
one_list-Represents = record { chain = cons refl refl refl nil; size = refl }

abbrev pub page : File
page = record { file_size = 5; read_size = 5; content = λ _. 65 }

pub page-IsServable : (f : File) → some page ≡ some f → IsServable 1381 f
unfolding response_headers decimal digits length
page-IsServable f e =
    let fits : IsServable 1381 page = record { bytes = λ i. omega arith; fits = omega arith } in
    rw (sym (some_inj e)) fits

abbrev pub memory : HttpMemory
memory = record { content_mem = true; response_mem = true; error_mem = true; fresh = λ _. 0 }

pub memory-HasMemory : HasMemory memory
memory-HasMemory = record {
  content = refl;
  response = refl;
  error = refl;
  fresh = λ i. omega arith;
}

abbrev pub world : World
world = record {
  tv_sec = 1;
  tv_usec = 2;
  rand = 3;
  tcb_mem = some 7;
  file = some page;
  http_mem = memory;
  stack = λ _. 0;
  steps = 8;
}

pub world-IsReady :
    (b : Buf) (s : TcpServerInstance) (es : Entries)
    → b.size ≡ 1501
    → s.nodes 7 ≡ none
    → count es ≤ 8
    → IsReady world b s es
world-IsReady b s es size free few = record {
  mem = (7, refl, free);
  steps = few;
  stack = λ i. omega arith;
  http = memory-HasMemory;
  servable = λ f e. rw size (page-IsServable f e);
  room = omega arith;
  small = omega arith;
}

pub empty-count : {h : Address → Option TcbNode} {es : Entries} → Chain h none es → count es ≡ 0
empty-count nil = refl

-- the read of the request
abbrev pub syn_arrival : Arrival
syn_arrival = record { nread = 40; bytes = λ i. nth syn_bytes i % 2 ^ 8; world = world }
