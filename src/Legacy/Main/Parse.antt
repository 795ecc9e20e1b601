-- ===== src/Legacy/Main/Parse.antt =====
-- The handling of one packet by the older server.
use lazy_tcp.Prelude.{
  ℕ, ◌+◌, ◌*◌, ◌/◌, ◌%◌, ◌≤◌, ◌≡◌, ◌≢◌, refl, arith, false, some, inl, inr, le→leb, ok, Returns,
  sym, ◌⊎◌, some_inj,
}
use lazy_tcp.Word.{ntohs, ntohs-lt}
use lazy_tcp.Buf.{Buf, IsBytes, word16}
use lazy_tcp.Buf.Access.{load8-ok, load16-ok}
use lazy_tcp.Layout.{Ipv4, ip_at}
use lazy_tcp.Ip.Laws.{IsPacket, header_length}
use lazy_tcp.Legacy.{Protocol, protocol_of, packet_deserialize}
use lazy_tcp.Legacy.Ping.{IsPinged, echoed, left_alone, icmp_dispatch-IsPinged}
use lazy_tcp.Legacy.Icmp.{icmp_dispatch}
use lazy_tcp.Legacy.Connections.{TcpServerInstance}
use lazy_tcp.Legacy.Connections.Chain.{Entries, count, Represents}
use lazy_tcp.Legacy.Segment.{World}
use lazy_tcp.Legacy.Segment.Answer.{IsReceived}
use lazy_tcp.Legacy.Tcp.{tcp_silent, answered, tcp_dispatch}
use lazy_tcp.Legacy.Tcp.Cases.{Handles, IsReady}
use lazy_tcp.Legacy.Tcp.Safe.{Keeps, tcp_dispatch-Handles, Handles-Keeps}
use lazy_tcp.Legacy.Main.{Outcome, write_packet, quiet, parse_op, parse_packet}

abbrev pub total_length : Buf → ℕ
total_length b = ntohs (word16 b.at (ip_at Ipv4.len))

-- Bytes whose total length covers the header and eight more bytes, and lies in the buffer.
pub record IsHonest (b : Buf) : Type 0 where
  pub bytes : IsBytes b.at
  pub covers : header_length b + 8 ≤ total_length b
  pub inside : total_length b ≤ b.size

-- the protocol of a packet
abbrev pub protocol : Buf → Protocol
protocol b = protocol_of (b.at 0) (b.at 9)

-- the packet of a buffer as it is written
abbrev pub whole : Buf → Buf
whole c = record c { size = total_length c }

-- A packet is answered by the ICMP handler, handled by the TCP dispatcher, whose answer is written
-- unless it is silent, or dropped.
pub data IsParsed (w : World) (b : Buf) (s : TcpServerInstance) (es : Entries) (o : Outcome)
    : Type 0 where
  pinged :
      (c : Buf)
      → protocol b ≡ Protocol.ipv4_icmp
      → IsPinged b (total_length b) (header_length b) c
      → o ≡ record { failed = false; written = some (whole c); packet = c; states = s }
      → IsParsed w b s es o
  silent :
      (c : Buf) (s' : TcpServerInstance)
      → protocol b ≡ Protocol.ipv4_tcp
      → Handles w b (header_length b) s es (tcp_silent, c, s')
      → o ≡ quiet c s'
      → IsParsed w b s es o
  replied :
      (c : Buf) (s' : TcpServerInstance)
      → protocol b ≡ Protocol.ipv4_tcp
      → Handles w b (header_length b) s es (answered, c, s')
      → o ≡ record { failed = false; written = some (whole c); packet = c; states = s' }
      → IsParsed w b s es o
  dropped :
      protocol b ≢ Protocol.ipv4_icmp
      → protocol b ≢ Protocol.ipv4_tcp
      → o ≡ quiet b s
      → IsParsed w b s es o

-- what a packet leaves for the next one
pub record IsKept (b : Buf) (es : Entries) (o : Outcome) : Type 0 where
  pub alive : o.failed ≡ false
  pub size : o.packet.size ≡ b.size
  pub bytes : IsBytes o.packet.at
  pub after : Entries
  pub list : Represents o.states after
  pub longer : count after ≤ count es + 1
  pub in_buffer : (p : Buf) → o.written ≡ some p → p.size ≤ b.size

protocol_ipv4 :
    (v p : ℕ)
    → ((protocol_of v p ≡ Protocol.ipv4_icmp) → (v / 16 ≡ 4) × (5 ≤ v % 16))
      × ((protocol_of v p ≡ Protocol.ipv4_tcp) → (v / 16 ≡ 4) × (5 ≤ v % 16) × (p ≡ 6))
unfolding protocol_of
protocol_ipv4 v p =
    (λ e. (ground arith, ground arith), λ e. (ground arith, ground arith, ground arith))

write_packet-ok :
    (c : Buf) (s : TcpServerInstance)
    → 4 ≤ c.size
    → total_length c ≤ c.size
    → write_packet c s
      ≡ ok (record { failed = false; written = some (whole c); packet = c; states = s })
unfolding write_packet
write_packet-ok c s room inside = rw (load16-ok c 2 (omega arith), le→leb _ _ inside)

module _ (w : World) (b : Buf) (s : TcpServerInstance) (es : Entries) (h : IsHonest b)
    (list : Represents s es) (ready : IsReady w b s es) where
  abbrev offset : ℕ
  offset = header_length b

  -- a result with what it leaves
  abbrev Parsed : Outcome → Type 0
  Parsed o = IsParsed w b s es o × IsKept b es o

  keeps_all : IsKept b es (quiet b s)
  keeps_all = record {
    alive = refl;
    size = refl;
    bytes = h.bytes;
    after = es;
    list = list;
    longer = omega arith;
    in_buffer = λ p e. cc;
  }

  pinged_kept :
      (c : Buf)
      → IsPinged b (total_length b) offset c
      → (c.size ≡ b.size) × IsBytes c.at × (total_length c ≤ c.size)
  pinged_kept c (echoed echo is same total) = (is.size, is.bytes, rw (total, is.size) h.inside)
  pinged_kept c (left_alone other same) = (rw same, rw same h.bytes, rw same h.inside)

  after_icmp :
      protocol b ≡ Protocol.ipv4_icmp
      → (c : Buf) → icmp_dispatch b offset ≡ ok c
      → IsPinged b (total_length b) offset c
      → Returns (parse_op w b offset Protocol.ipv4_icmp s) Parsed
  unfolding parse_op
  after_icmp e c run is =
      let (size, bytes, inside) = pinged_kept c is in
      let room = ready.room in
      (
        record { failed = false; written = some (whole c); packet = c; states = s },
        rw run (write_packet-ok c s (omega arith) inside),
        (
          pinged c e is refl,
          record {
            alive = refl;
            size = size;
            bytes = bytes;
            after = es;
            list = list;
            longer = omega arith;
            in_buffer = λ p same. rw (sym (some_inj same)) (rw (sym size) inside);
          },
        ),
      )

  after_tcp :
      protocol b ≡ Protocol.ipv4_tcp
      → (n : ℕ) (c : Buf) (s' : TcpServerInstance) → tcp_dispatch w b offset s ≡ ok (n, c, s')
      → Handles w b offset s es (n, c, s')
      → (k : Keeps b es (n, c, s'))
      → (n ≡ tcp_silent) ⊎ ((n ≡ answered) × (total_length c ≤ b.size))
      → Returns (parse_op w b offset Protocol.ipv4_tcp s) Parsed
  unfolding parse_op
  after_tcp e n c s' run is k (inl silence) = (
    quiet c s',
    rw (run, silence),
    (
      silent c s' e (rw silence at is) refl,
      record {
        alive = refl;
        size = k.size;
        bytes = k.bytes;
        after = k.after;
        list = k.list;
        longer = k.longer;
        in_buffer = λ p same. cc;
      },
    ),
  )
  after_tcp e n c s' run is k (inr (ans, inside)) =
      let room = ready.room in
      (
        record { failed = false; written = some (whole c); packet = c; states = s' },
        rw (run, ans) (write_packet-ok c s' (omega (arith, k.size)) (rw k.size inside)),
        (
          replied c s' e (rw ans at is) refl,
          record {
            alive = refl;
            size = k.size;
            bytes = k.bytes;
            after = k.after;
            list = k.list;
            longer = k.longer;
            in_buffer = λ p same. rw (sym (some_inj same)) inside;
          },
        ),
      )

  parse_icmp :
      protocol b ≡ Protocol.ipv4_icmp → Returns (parse_op w b offset Protocol.ipv4_icmp s) Parsed
  unfolding parse_op
  parse_icmp e =
      let (version, long) = (protocol_ipv4 (b.at 0) (b.at 9)).0 e in
      let p : IsPacket b (total_length b) offset = record {
        bytes = h.bytes;
        version = version;
        header = refl;
        long = omega arith;
        inside = omega (arith, h.covers);
        fits = h.inside;
        small = ntohs-lt _;
      } in
      let (c, run, is) = icmp_dispatch-IsPinged b (total_length b) offset p h.covers refl in
      after_icmp e c run is

  parse_tcp :
      protocol b ≡ Protocol.ipv4_tcp → Returns (parse_op w b offset Protocol.ipv4_tcp s) Parsed
  unfolding parse_op
  parse_tcp e =
      let (version, long, proto) = (protocol_ipv4 (b.at 0) (b.at 9)).1 e in
      let r : IsReceived b offset = record {
        bytes = h.bytes;
        version = version;
        header = refl;
        long = omega arith;
        proto = proto;
        room = omega (arith, ready.room);
      } in
      let (x, run, is) = tcp_dispatch-Handles w b offset r s es list ready h.inside in
      let k = Handles-Keeps w b offset r s es list ready h.inside x is in
      after_tcp e x.0 x.1 x.2 run is k k.code

  parse_protocol : (op : Protocol) → protocol b ≡ op → Returns (parse_op w b offset op s) Parsed
  unfolding parse_op
  parse_protocol Protocol.ipv4_icmp e = parse_icmp e
  parse_protocol Protocol.ipv4_tcp e = parse_tcp e
  parse_protocol Protocol.ipv6 e = (quiet b s, refl, (dropped (λ x. cc) (λ x. cc) refl, keeps_all))
  parse_protocol Protocol.ver_undf e =
      (quiet b s, refl, (dropped (λ x. cc) (λ x. cc) refl, keeps_all))
  parse_protocol Protocol.proto_undf e =
      (quiet b s, refl, (dropped (λ x. cc) (λ x. cc) refl, keeps_all))

  -- For honest bytes, a list that stands for `es` and surroundings as `IsReady` says,
  -- `parse_packet` meets no fault, handles the packet as `IsParsed` says, and leaves what `IsKept`
  -- says.
  pub parse_packet-IsParsed :
      Returns (parse_packet w b s) (λ o. IsParsed w b s es o × IsKept b es o)
  unfolding parse_packet packet_deserialize
  parse_packet-IsParsed =
      let (o, run, is) = parse_protocol (protocol b) refl in
      let place : 4 * (b.at 0 % 16) ≡ offset = omega arith in
      (
        o,
        rw
            (
              load8-ok b 0 (omega (arith, ready.room)),
              load8-ok b 9 (omega (arith, ready.room)),
              place,
            )
            run,
        is,
      )
