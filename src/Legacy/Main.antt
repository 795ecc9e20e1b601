-- ===== src/Legacy/Main.antt =====
-- The older server's handling of a packet and its loop (main.c). The output that `verbose` asks for
-- is left out; `read` is a parameter.
use lazy_tcp.Prelude.{ℕ, ◌*◌, ◌%◌, Bool, true, false, Option, none, some, List, [], ◌∷◌, leb, ◌==◌}
use lazy_tcp.Prelude.{if◌then◌else◌, Run, ok, fault, ◌>>=◌}
use lazy_tcp.Word.{ntohs}
use lazy_tcp.Buf.{Buf, load8, load16, memcpy}
use lazy_tcp.Layout.{Ipv4, ip_at}
use lazy_tcp.Legacy.{Protocol, packet_deserialize}
use lazy_tcp.Legacy.Icmp.{icmp_dispatch}
use lazy_tcp.Legacy.Connections.{TcpServerInstance}
use lazy_tcp.Legacy.Segment.{World}
use lazy_tcp.Legacy.Tcp.{tcp_silent, tcp_dispatch}
pub mod Parse
pub mod Serve
pub mod Start

-- what a packet leads to: the result, the bytes that are written to the device, the buffer and the
-- connections
pub record Outcome : Type 0 where
  pub failed : Bool
  pub written : Option Buf
  pub packet : Buf
  pub states : TcpServerInstance

-- `write(vd->fd, ip_pack, ntohs(ip_pack->len))`: reading past the buffer is a fault
unfoldable pub write_packet : Buf → TcpServerInstance → Run Outcome
write_packet b s = do
  len ← load16 b (ip_at Ipv4.len)
  if leb (ntohs len) b.size
      then ok (record {
        failed = false;
        written = some (record b { size = ntohs len });
        packet = b;
        states = s;
      })
      else fault

abbrev pub quiet : Buf → TcpServerInstance → Outcome
quiet b s = record { failed = false; written = none; packet = b; states = s }

-- `tcp_dispatch` has the code `TCP_FATAL`, 1, for an error that ends the server.
unfoldable pub parse_op : World → Buf → (tcp : ℕ) → Protocol → TcpServerInstance → Run Outcome
parse_op w b tcp Protocol.ipv4_icmp s = do b' ← icmp_dispatch b tcp; write_packet b' s
parse_op w b tcp Protocol.ipv4_tcp s = do
  (err, b', s') ← tcp_dispatch w b tcp s
  if err == 1
      then ok (record { failed = true; written = none; packet = b'; states = s' })
      else if err == tcp_silent
      then ok (quiet b' s')
      else write_packet b' s'
parse_op w b tcp _ s = ok (quiet b s)

unfoldable pub parse_packet : World → Buf → TcpServerInstance → Run Outcome
unfolding parse_op
parse_packet w b s = do
  op ← packet_deserialize b
  version_ihl ← load8 b (ip_at Ipv4.version_ihl)
  parse_op w b (4 * (version_ihl % 16)) op s

-- `MTU_SIZE`
abbrev pub mtu : ℕ
mtu = 1500

-- one `read` that returns a positive number, and what the handling of its packet takes from outside
pub record Arrival : Type 0 where
  pub nread : ℕ
  pub bytes : ℕ → ℕ
  pub world : World

-- The loop over the reads, until one returns 0 or less: whether the server failed, what it wrote,
-- and its state. `read` leaves the rest of the buffer as it was.
unfoldable pub serve :
    List Arrival → Buf → TcpServerInstance → Run (Bool × List Buf × Buf × TcpServerInstance)
serve [] tu s = ok (false, [], tu, s)
serve (a ∷ rest) tu s = do
  tu' ← memcpy tu 0 (record { size = a.nread; at = a.bytes }) 0 a.nread
  o ← parse_packet a.world tu' s
  if o.failed then ok (true, [], o.packet, o.states) else (do
    (failed, sent, end, s') ← serve rest o.packet o.states
    ok (failed, elim o.written [ none ↦ sent | some p ↦ p ∷ sent ], end, s'))
