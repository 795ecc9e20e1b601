-- ===== src/Tests/Witnesses/Older.antt =====
-- The theorems on the handlers and the loop of the older server.
use lazy_tcp.Prelude.{◌+◌, ◌≡◌, refl, arith, Returns, false, some, [], ◌∷◌}
use lazy_tcp.Word.{ntohs}
use lazy_tcp.Buf.{Buf}
use lazy_tcp.Tests.Packets.{syn_bytes}
use lazy_tcp.Legacy.Ping.{IsPinged, icmp_dispatch-IsPinged}
use lazy_tcp.Legacy.Icmp.{icmp_dispatch}
use lazy_tcp.Legacy.Http.{http_handle_request}
use lazy_tcp.Legacy.Http.Response.{IsMessage, is_get, http_handle_request-IsMessage}
use lazy_tcp.Legacy.Tcp.{tcp_dispatch}
use lazy_tcp.Legacy.Tcp.Cases.{Handles}
use lazy_tcp.Legacy.Tcp.Safe.{tcp_dispatch-Handles}
use lazy_tcp.Legacy.Main.{mtu, parse_packet, serve}
use lazy_tcp.Legacy.Main.Parse.{IsHonest, IsParsed, IsKept, parse_packet-IsParsed}
use lazy_tcp.Legacy.Main.Serve.{
  IsArrival, received, Prepared, done, next, AllWithin, IsServing, serve-IsServing,
}
use lazy_tcp.Tests.Older.{
  unit, unit-IsBytes, syn_unit, ping_unit, ping_unit-IsPacket, syn_unit-IsReceived, empty_list,
  empty_list-Represents, page, page-IsServable, memory, memory-HasMemory, world, world-IsReady,
  empty-count, syn_arrival,
}

icmp_dispatch-IsPinged_example : Returns (icmp_dispatch ping_unit 20) (IsPinged ping_unit 32 20)
unfolding ntohs
icmp_dispatch-IsPinged_example =
    icmp_dispatch-IsPinged ping_unit 32 20 ping_unit-IsPacket (omega arith) refl

-- a request of the page
abbrev get_unit : Buf
get_unit = unit (71 ∷ 69 ∷ 84 ∷ 32 ∷ 47 ∷ [])

http_handle_request-IsMessage_example :
    Returns
      (http_handle_request (some page) memory get_unit 0 5)
      (IsMessage 1381 (some page) (is_get get_unit 0 5))
http_handle_request-IsMessage_example =
    http_handle_request-IsMessage 1381 memory memory-HasMemory (omega arith) (omega arith)
      (some page) page-IsServable get_unit 0 5 (omega arith)

tcp_dispatch-Handles_example :
    Returns (tcp_dispatch world syn_unit 20 empty_list) (Handles world syn_unit 20 empty_list [])
unfolding ntohs
tcp_dispatch-Handles_example =
    tcp_dispatch-Handles world syn_unit 20 syn_unit-IsReceived empty_list [] empty_list-Represents
      (world-IsReady syn_unit empty_list [] refl refl (omega arith)) (omega arith)

syn_unit-IsHonest : IsHonest syn_unit
unfolding ntohs
syn_unit-IsHonest = record {
  bytes = unit-IsBytes syn_bytes;
  covers = omega arith;
  inside = omega arith;
}

parse_packet-IsParsed_example :
    Returns
      (parse_packet world syn_unit empty_list)
      (λ o. IsParsed world syn_unit empty_list [] o × IsKept syn_unit [] o)
parse_packet-IsParsed_example =
    parse_packet-IsParsed world syn_unit empty_list [] syn_unit-IsHonest empty_list-Represents
      (world-IsReady syn_unit empty_list [] refl refl (omega arith))

syn_arrival-IsArrival : IsArrival syn_arrival
unfolding ntohs
syn_arrival-IsArrival = record {
  bytes = λ i. omega arith;
  long = omega arith;
  short = omega arith;
  covers = omega arith;
  inside = omega arith;
}

syn_arrival-Prepared : Prepared (syn_arrival ∷ []) (unit []) empty_list
syn_arrival-Prepared =
    next syn_arrival-IsArrival
      (λ es list.
        world-IsReady (received syn_arrival (unit [])) empty_list es refl refl
          (omega (arith, empty-count list.chain)))
      (λ o run. done)

serve-IsServing_example :
    Returns
      (serve (syn_arrival ∷ []) (unit []) empty_list)
      λ r. (r.0 ≡ false) × AllWithin (mtu + 1) r.1 × IsServing r.2 r.3
serve-IsServing_example =
    serve-IsServing (syn_arrival ∷ []) (unit []) empty_list syn_arrival-Prepared
      (record { size = refl; bytes = unit-IsBytes []; entries = []; list = empty_list-Represents })
