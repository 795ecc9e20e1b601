-- ===== src/Legacy/Main/Serve.antt =====
-- The loop of the older server.
use lazy_tcp.Prelude.{
  ℕ, ◌+◌, ◌-◌, ◌≤◌, ◌<◌, ◌≡◌, refl, arith, Bool, false, Option, none, some, List, [], ◌∷◌, ok,
  Returns, ap, ◌∙◌,
}
use lazy_tcp.Word.{ntohs}
use lazy_tcp.Buf.{Buf, IsBytes, memcpy, word16, copy, with_bytes}
use lazy_tcp.Buf.Access.{memcpy-ok, copy-IsBytes}
use lazy_tcp.Layout.{Ipv4, ip_at}
use lazy_tcp.Ip.{ihl_of}
use lazy_tcp.Legacy.Connections.{TcpServerInstance}
use lazy_tcp.Legacy.Connections.Chain.{Entries, Represents}
use lazy_tcp.Legacy.Tcp.Cases.{IsReady}
use lazy_tcp.Legacy.Main.{Outcome, Arrival, mtu, parse_packet, serve}
use lazy_tcp.Legacy.Main.Parse.{IsHonest, total_length, parse_packet-IsParsed}

-- A read of at most an MTU of bytes whose total length covers the header and eight more bytes, and
-- was read whole.
pub record IsArrival (a : Arrival) : Type 0 where
  pub bytes : IsBytes a.bytes
  pub long : 20 ≤ a.nread
  pub short : a.nread ≤ mtu
  pub covers : ihl_of (a.bytes 0) + 8 ≤ ntohs (word16 a.bytes (ip_at Ipv4.len))
  pub inside : ntohs (word16 a.bytes (ip_at Ipv4.len)) ≤ a.nread

-- the buffer after a read
abbrev pub received : Arrival → Buf → Buf
received a tu = with_bytes tu (copy tu.at 0 a.bytes 0 a.nread)

-- Every read is an arrival, and finds surroundings as `IsReady` says in the state that the packets
-- before it leave.
pub data Prepared : List Arrival → Buf → TcpServerInstance → Type 0 where
  done : {tu : Buf} {s : TcpServerInstance} → Prepared [] tu s
  next :
      {a : Arrival} {rest : List Arrival} {tu : Buf} {s : TcpServerInstance}
      → IsArrival a
      → ((es : Entries) → Represents s es → IsReady a.world (received a tu) s es)
      → ((o : Outcome)
          → parse_packet a.world (received a tu) s ≡ ok o
          → Prepared rest o.packet o.states)
      → Prepared (a ∷ rest) tu s

-- every packet that was written has at most `n` bytes
pub data AllWithin (n : ℕ) : List Buf → Type 0 where
  none_sent : AllWithin n []
  sent : {p : Buf} {ps : List Buf} → p.size ≤ n → AllWithin n ps → AllWithin n (p ∷ ps)

-- The buffer keeps its size and its bytes, and the list stands for entries.
pub record IsServing (tu : Buf) (s : TcpServerInstance) : Type 0 where
  pub size : tu.size ≡ mtu + 1
  pub bytes : IsBytes tu.at
  pub entries : Entries
  pub list : Represents s entries

received-IsHonest :
    (a : Arrival) (tu : Buf)
    → IsArrival a
    → IsBytes tu.at
    → tu.size ≡ mtu + 1
    → IsHonest (received a tu)
received-IsHonest a tu h bytes size =
    let at : (j : ℕ) → j < 20 → (received a tu).at j ≡ a.bytes j = λ j less.
      let place : 0 + (j - 0) ≡ j = omega arith in
      (unfold copy in ground (arith, h.long, ap a.bytes place)) in
    let total : total_length (received a tu) ≡ ntohs (word16 a.bytes 2) =
      ap ntohs (omega (arith, at 2 (omega arith), at 3 (omega arith))) in
    let first = at 0 (omega arith) in
    record {
      bytes = copy-IsBytes tu.at 0 a.bytes 0 a.nread bytes h.bytes;
      covers = omega (arith, first, total, h.covers);
      inside = omega (arith, total, size, h.inside, h.short);
    }

with_written :
    (n : ℕ) (o : Option Buf) (ps : List Buf)
    → ((p : Buf) → o ≡ some p → p.size ≤ n)
    → AllWithin n ps
    → AllWithin n (elim o [ none ↦ ps | some p ↦ p ∷ ps ])
with_written n none ps h k = k
with_written n (some p) ps h k = sent (h p refl) k

serve_step :
    (a : Arrival) (rest : List Arrival) (tu : Buf) (s : TcpServerInstance) (o : Outcome)
    (r : Bool × List Buf × Buf × TcpServerInstance)
    → memcpy tu 0 (record { size = a.nread; at = a.bytes }) 0 a.nread ≡ ok (received a tu)
    → parse_packet a.world (received a tu) s ≡ ok o
    → o.failed ≡ false
    → serve rest o.packet o.states ≡ ok r
    → serve (a ∷ rest) tu s ≡ ok (r.0, elim o.written [ none ↦ r.1 | some p ↦ p ∷ r.1 ], r.2, r.3)
unfolding serve
serve_step a rest tu s o r reads parses alive more = rw (reads, parses, alive, more)

-- For prepared reads, which are honest, with memory for every block and response and a file that
-- fits, a buffer of an MTU and one byte and a list that stands for entries, the loop meets no
-- fault, does not fail, writes only packets that fit the buffer, and ends in such a state.
pub serve-IsServing :
    (reads : List Arrival) (tu : Buf) (s : TcpServerInstance)
    → Prepared reads tu s
    → IsServing tu s
    → Returns (serve reads tu s) λ r. (r.0 ≡ false) × AllWithin (mtu + 1) r.1 × IsServing r.2 r.3
unfolding serve
serve-IsServing _ tu s done v = (_, refl, (refl, none_sent, v))
serve-IsServing _ tu s (next {a} {rest} h ready later) v =
    let honest = received-IsHonest a tu h v.bytes v.size in
    let (o, run, (parsed, k)) =
      parse_packet-IsParsed a.world (received a tu) s v.entries honest v.list
        (ready v.entries v.list) in
    let (r, more, (fine, within, end)) =
      serve-IsServing rest o.packet o.states (later o run)
        (record { size = k.size ∙ v.size; bytes = k.bytes; entries = k.after; list = k.list }) in
    let source : Buf = record { size = a.nread; at = a.bytes } in
    let arrives = memcpy-ok tu 0 source 0 a.nread (omega (arith, h.short, v.size)) (omega arith) in
    let small : (p : Buf) → o.written ≡ some p → p.size ≤ mtu + 1 =
      λ p e. omega (arith, k.in_buffer p e, v.size) in
    (
      (r.0, elim o.written [ none ↦ r.1 | some p ↦ p ∷ r.1 ], r.2, r.3),
      serve_step a rest tu s o r arrives run k.alive more,
      (fine, with_written (mtu + 1) o.written r.1 small within, end),
    )
