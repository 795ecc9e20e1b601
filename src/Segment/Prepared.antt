-- ===== src/Segment/Prepared.antt =====
-- The answer to a valid connection request before its IP checksum and its TCP checksum are set,
-- and how `tcp_syn_ack` gets there.
use lazy_tcp.Prelude.{ℕ, ◌+◌, ◌*◌, ◌/◌, ◌≤◌, ◌<◌, ◌≡◌, ◌⊎◌, refl, arith, ok, Option, ◌∙◌}
use lazy_tcp.Word.{htons, ntohs-lt}
use lazy_tcp.Buf.{Buf, IsBytes, word16, put16, with_bytes}
use lazy_tcp.Buf.Access.{load8-ok, store16-ok, put16-IsBytes, put16-other, word16-put16}
use lazy_tcp.Checksum.Stamp.{IsStamped}
use lazy_tcp.Ip.{ip_swap_dst, ip_checksum}
use lazy_tcp.Ip.Laws.{IsPacket, IsPacket-same, IsSwapped}
use lazy_tcp.Tcb.{Ptr, Tcb}
use lazy_tcp.Hash.{Table}
use lazy_tcp.State.{deref}
use lazy_tcp.Transport.Sum.{tcp_sum, tcp_checksum-ok}
use lazy_tcp.Segment.{hlen_of, tcp_syn_ack}
use lazy_tcp.Segment.Bytes.{
  ports, fields, tcp_swap_port-ok, set_fields-ok, ports-IsBytes, ports-other, fields-IsBytes,
  fields-other,
}

-- the TCP header length that the segment states
abbrev pub tcp_hlen : Buf → ℕ → ℕ
tcp_hlen b offset = hlen_of (b.at (offset + 12))

module _ (b : Buf) (len offset : ℕ) (p : IsPacket b len offset) (room : offset + 60 ≤ b.size)
    (t : Tcb) where
  abbrev hlen : ℕ
  hlen = tcp_hlen b offset

  -- the bytes with ports and fields set
  abbrev pub headed : Buf → ℕ → ℕ
  headed b1 =
      fields (ports b1.at offset) offset t.send.iss t.recv.next (hlen / 4 * 16) 0x12
        (htons t.recv.window)

  -- the bytes between the exchange of addresses and the checksum of the IP header
  unfoldable pub prepared : Buf → Buf
  prepared b1 = with_bytes b1 (put16 (headed b1) 2 (htons (offset + hlen)))

  module _ (b1 : Buf) (s : IsSwapped b b1) where
    pub prepared_size : (prepared b1).size ≡ b1.size
    unfolding prepared
    prepared_size = refl

    pub prepared-IsBytes : IsBytes (prepared b1).at
    unfolding prepared
    prepared-IsBytes =
        put16-IsBytes _ 2 _ (fields-IsBytes _ offset _ _ _ _ _ (ports-IsBytes b1.at offset s.bytes))

    pub prepared-other : (j : ℕ) → j < offset → (j < 2) ⊎ (3 < j) → (prepared b1).at j ≡ b1.at j
    unfolding prepared
    prepared-other j less h =
        put16-other _ 2 (htons (offset + hlen)) j (ground arith)
        ∙ fields-other (ports b1.at offset) offset _ _ _ _ _ j (ground arith)
        ∙ ports-other b1.at offset j (ground arith)

    pub prepared_fields : (j : ℕ) → offset ≤ j → (prepared b1).at j ≡ headed b1 j
    unfolding prepared
    prepared_fields j h = put16-other _ 2 (htons (offset + hlen)) j (ground (arith, p.long))

    pub prepared_total : word16 (prepared b1).at 2 ≡ htons (offset + hlen)
    unfolding prepared
    prepared_total =
        let f = headed b1 in
        ground (arith, word16-put16 f 2 (htons (offset + hlen)), ntohs-lt (offset + hlen))

  -- the bytes of the response but for the two checksums
  pub record IsPrepared (b1 d : Buf) : Type 0 where
    pub swapped : IsSwapped b b1
    pub stamped : IsStamped (prepared b1) 0 10 offset d

  pub packet_out : (b1 d : Buf) → IsPrepared b1 d → IsPacket d len offset
  packet_out b1 d h =
      IsPacket-same d p (h.stamped.size ∙ prepared_size b1 h.swapped ∙ h.swapped.size)
        h.stamped.bytes
        (h.stamped.other 0 (omega arith)
          ∙ prepared-other b1 h.swapped 0 (omega (arith, p.long)) (omega arith)
          ∙ h.swapped.other 0 (omega arith))

  pub size_out : (b1 d : Buf) → IsPrepared b1 d → d.size ≡ b.size
  size_out b1 d h = h.stamped.size ∙ prepared_size b1 h.swapped ∙ h.swapped.size

  pub run_syn_ack :
      (stack : ℕ → ℕ) (s : Table) (tcb : Option Ptr) (q : Ptr)
      → IsBytes stack
      → deref s.heap tcb ≡ ok (q, t)
      → (b1 d : Buf) → ip_swap_dst b ≡ ok b1
      → ip_checksum (prepared b1) ≡ ok d
      → IsPrepared b1 d
      → tcp_syn_ack stack s tcb b len offset
        ≡ ok (offset + hlen, with_bytes d (put16 d.at (offset + 16) (tcp_sum d.at len offset)))
  unfolding tcp_syn_ack prepared
  run_syn_ack stack s tcb q stack_bytes held b1 d swaps sums h =
      let size : b1.size ≡ b.size = h.swapped.size in
      let b2 = with_bytes b1 (ports b1.at offset) in
      let f = headed b1 in
      let b3 = with_bytes b1 f in
      let data_same : b2.at (offset + 12) ≡ b.at (offset + 12) =
        ports-other b1.at offset (offset + 12) (omega arith)
        ∙ h.swapped.other (offset + 12) (omega (arith, p.long)) in
      let first : f 0 ≡ b.at 0 =
        fields-other (ports b1.at offset) offset t.send.iss t.recv.next (hlen / 4 * 16) 0x12
          (htons t.recv.window) 0 (omega (arith, p.long))
        ∙ ports-other b1.at offset 0 (omega (arith, p.long))
        ∙ h.swapped.other 0 (omega arith) in
      rw (
        swaps,
        tcp_swap_port-ok b1 offset (omega arith),
        load8-ok b2 (offset + 12) (omega arith),
        data_same,
        held,
        set_fields-ok b2 offset (omega arith) t.send.iss t.recv.next (hlen / 4 * 16) 0x12
            (htons t.recv.window),
        load8-ok b3 0 (omega arith),
        first,
        p.header,
        store16-ok b3 2 (htons (offset + hlen)) (omega arith),
        sums,
        tcp_checksum-ok stack d len offset stack_bytes (packet_out b1 d h)
            (omega (arith, size_out b1 d h)),
        store16-ok d (offset + 16) (tcp_sum d.at len offset) (omega (arith, size_out b1 d h)),
      )
