-- ===== src/Tests/Packets.antt =====
-- Packets from 10.0.0.1 to 10.0.0.2 in a buffer of 1500 bytes.
use lazy_tcp.Prelude.{ℕ, zero, suc, ◌%◌, ◌^◌, refl, arith, List, [], ◌∷◌}
use lazy_tcp.Buf.{Buf, IsBytes}
use lazy_tcp.Ip.Laws.{IsPacket}

abbrev pub nth : List ℕ → ℕ → ℕ
nth [] i = 0
nth (x ∷ xs) zero = x
nth (x ∷ xs) (suc i) = nth xs i

abbrev pub packet : List ℕ → Buf
packet bytes = record { size = 1500; at = λ i. nth bytes i % 2 ^ 8 }

pub packet-IsBytes : (bytes : List ℕ) → IsBytes (packet bytes).at
packet-IsBytes bytes i = omega arith

-- 10.0.0.1:4660 asks 10.0.0.2:8080 for a connection, from sequence number 1000
abbrev pub syn_bytes : List ℕ
syn_bytes =
    69 ∷ 0 ∷ 0 ∷ 40 ∷ 0 ∷ 1 ∷ 0 ∷ 0 ∷ 64 ∷ 6 ∷ 102 ∷ 205 ∷ 10 ∷ 0 ∷ 0 ∷ 1 ∷ 10 ∷ 0 ∷ 0 ∷ 2 ∷ 18 ∷ 52
    ∷ 31 ∷ 144 ∷ 0 ∷ 0 ∷ 3 ∷ 232 ∷ 0 ∷ 0 ∷ 0 ∷ 0 ∷ 80 ∷ 2 ∷ 16 ∷ 0 ∷ 86 ∷ 52 ∷ 0 ∷ 0 ∷ []

-- a ping with four bytes of data
abbrev pub ping_bytes : List ℕ
ping_bytes =
    69 ∷ 0 ∷ 0 ∷ 32 ∷ 0 ∷ 1 ∷ 0 ∷ 0 ∷ 64 ∷ 1 ∷ 102 ∷ 218 ∷ 10 ∷ 0 ∷ 0 ∷ 1 ∷ 10 ∷ 0 ∷ 0 ∷ 2 ∷ 8 ∷ 0
    ∷ 115 ∷ 113 ∷ 0 ∷ 7 ∷ 0 ∷ 1 ∷ 65 ∷ 66 ∷ 67 ∷ 68 ∷ []

-- a UDP datagram, which no handler takes
abbrev pub udp_bytes : List ℕ
udp_bytes =
    69 ∷ 0 ∷ 0 ∷ 32 ∷ 0 ∷ 1 ∷ 0 ∷ 0 ∷ 64 ∷ 17 ∷ 102 ∷ 202 ∷ 10 ∷ 0 ∷ 0 ∷ 1 ∷ 10 ∷ 0 ∷ 0 ∷ 2 ∷ 0 ∷ 1
    ∷ 2 ∷ 3 ∷ 4 ∷ 5 ∷ 6 ∷ 7 ∷ 8 ∷ 9 ∷ 10 ∷ 11 ∷ []

abbrev pub syn_packet : Buf
syn_packet = packet syn_bytes

abbrev pub ping_packet : Buf
ping_packet = packet ping_bytes

abbrev pub udp_packet : Buf
udp_packet = packet udp_bytes

pub syn_packet-IsPacket : IsPacket syn_packet 40 20
syn_packet-IsPacket = record {
  bytes = packet-IsBytes syn_bytes;
  version = refl;
  header = refl;
  long = omega arith;
  inside = omega arith;
  fits = omega arith;
  small = omega arith;
}

pub ping_packet-IsPacket : IsPacket ping_packet 32 20
ping_packet-IsPacket = record {
  bytes = packet-IsBytes ping_bytes;
  version = refl;
  header = refl;
  long = omega arith;
  inside = omega arith;
  fits = omega arith;
  small = omega arith;
}

pub udp_packet-IsPacket : IsPacket udp_packet 32 20
udp_packet-IsPacket = record {
  bytes = packet-IsBytes udp_bytes;
  version = refl;
  header = refl;
  long = omega arith;
  inside = omega arith;
  fits = omega arith;
  small = omega arith;
}
