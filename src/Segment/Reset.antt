-- ===== src/Segment/Reset.antt =====
-- The reset that refuses a segment.
use lazy_tcp.Prelude.{
  ℕ, ◌+◌, ◌*◌, ◌/◌, ◌%◌, ◌^◌, ◌≤◌, ◌<◌, ◌≡◌, refl, arith, Bool, true, false, some, if◌then◌else◌,
  ok, Returns, ap, ◌∙◌,
}
use lazy_tcp.Word.{u16, u32, sub32, htons, ntohs, ntohl, htonl, has_bit, ntohl-htonl, ntohl-lt}
use lazy_tcp.Buf.{Buf, IsBytes, word16, word32, put16, with_bytes}
use lazy_tcp.Buf.Access.{put16-IsBytes, load8-ok, load16-ok, load32-ok, store16-ok, put16-other}
use lazy_tcp.Layout.{Ipv4, ip_at, Tcp, tcp_at}
use lazy_tcp.Ip.{ip_swap_dst}
use lazy_tcp.Ip.Laws.{IsPacket, IsSwapped, ip_swap_dst-IsSwapped}
use lazy_tcp.Tcb.{Ptr, ConId}
use lazy_tcp.Hash.{Table}
use lazy_tcp.Hash.Laws.{IsTable, Holds}
use lazy_tcp.Hash.Delete.{Deletes, hash_delete-Deletes}
use lazy_tcp.Transport.{Env, fin_flag, syn_flag, rst_flag, ack_flag}
use lazy_tcp.State.Update.{seq_of, ack_of}
use lazy_tcp.Segment.{delete_tcb, tcp_rst}
use lazy_tcp.Segment.Prepared.{tcp_hlen}
use lazy_tcp.Segment.Bytes.{
  fields-IsBytes, ports-IsBytes, ports, fields, tcp_swap_port-ok, set_fields-ok, ports-other,
  ports_swapped, fields-other, fields_numbers, fields_rest,
}

-- the flags of a segment
abbrev pub flag : Buf → ℕ → ℕ → Bool
flag b offset mask = has_bit (b.at (offset + tcp_at Tcp.flags)) mask

abbrev pub flag_bit : Buf → ℕ → ℕ → ℕ
flag_bit b offset mask = if flag b offset mask then 1 else 0

-- the length of the segment's data
abbrev pub data_length : Buf → ℕ → ℕ
data_length b offset =
    sub32 (sub32 (ntohs (word16 b.at (ip_at Ipv4.len))) offset) (tcp_hlen b offset)

-- What the sender of a refused segment gets, and that its connection is forgotten. A segment with
-- an ACK is answered with the high half of its acknowledgment number as sequence number; one
-- without is acknowledged up to its end. The other numbers and flags are what stood in memory.
pub record IsReset (env : Env) (b : Buf) (offset : ℕ) (s : Table) (a : ConId) (p : Ptr)
    (r : ℕ × Buf × Table) : Type 0 where
  pub length : r.0 ≡ offset + tcp_hlen b offset
  pub size : r.1.size ≡ b.size
  pub bytes : IsBytes r.1.at
  pub src : word32 r.1.at (ip_at Ipv4.src) ≡ word32 b.at (ip_at Ipv4.dst)
  pub dst : word32 r.1.at (ip_at Ipv4.dst) ≡ word32 b.at (ip_at Ipv4.src)
  pub src_port : word16 r.1.at offset ≡ word16 b.at (offset + tcp_at Tcp.dst_port)
  pub dst_port : word16 r.1.at (offset + tcp_at Tcp.dst_port) ≡ word16 b.at offset
  pub answers_ack :
      flag b offset ack_flag ≡ true
      → (r.1.at (offset + tcp_at Tcp.flags) ≡ rst_flag)
        × (ntohl (word32 r.1.at (offset + tcp_at Tcp.seq_num)) ≡ ack_of b offset / 2 ^ 16)
  pub acknowledges :
      flag b offset ack_flag ≡ false
      → ntohl (word32 r.1.at (offset + tcp_at Tcp.ack_num))
        ≡ u32 (
            seq_of b offset
            + u32
                (data_length b offset + (flag_bit b offset fin_flag + flag_bit b offset syn_flag)))
  pub window : word16 r.1.at (offset + tcp_at Tcp.window) ≡ 0
  pub table : Deletes s a p r.2

read_back : (v x : ℕ) → v ≡ htonl x % 2 ^ 32 → ntohl v ≡ x % 2 ^ 32
read_back v x e = ap ntohl (e ∙ omega (arith, ntohl-lt x)) ∙ ntohl-htonl x

-- `htons` of the stored number is the high half of the number.
high_half : (v : ℕ) → v < 2 ^ 32 → htons (u16 v) ≡ ntohl v / 2 ^ 16
unfolding ntohs ntohl
high_half v less = omega arith

module _ (env : Env) (b : Buf) (len offset : ℕ) (pkt : IsPacket b len offset)
    (room : offset + 20 ≤ b.size) where
  abbrev hlen : ℕ
  hlen = tcp_hlen b offset

  abbrev seq_no : ℕ
  seq_no =
      if flag b offset ack_flag then htons (u16 (word32 b.at (offset + 8))) else env.unset_seq_no

  abbrev ack_no : ℕ
  ack_no =
      if flag b offset ack_flag
      then env.unset_ack_no
      else u32 (
          seq_of b offset
          + u32 (data_length b offset + (flag_bit b offset fin_flag + flag_bit b offset syn_flag)))

  abbrev pl_flags : ℕ
  pl_flags = if flag b offset ack_flag then rst_flag else env.unset_pl_flags

  abbrev swapped : Buf → ℕ → ℕ
  swapped b1 = put16 (ports b1.at offset) 2 (htons (offset + hlen))

  abbrev answer : Buf → ℕ → ℕ
  answer b1 = fields (swapped b1) offset seq_no ack_no (hlen / 4 * 16) pl_flags 0

  seq_answered : flag b offset ack_flag ≡ true → seq_no ≡ ack_of b offset / 2 ^ 16
  seq_answered e = rw e (
      high_half (word32 b.at (offset + 8)) (
        omega (
          arith,
          pkt.bytes (offset + 8),
          pkt.bytes (offset + 8 + 1),
          pkt.bytes (offset + 8 + 2),
          pkt.bytes (offset + 8 + 3),
        )))

  run_rst :
      (s s' : Table) (p : Ptr) (b1 : Buf)
      → ip_swap_dst b ≡ ok b1
      → b1.size ≡ b.size
      → delete_tcb s (some p) ≡ ok s'
      → tcp_rst env s (some p) b offset ≡ ok (offset + hlen, with_bytes b1 (answer b1), s')
  unfolding tcp_rst
  run_rst s s' p b1 swaps size deleted = rw (
    load8-ok b (offset + 13) (omega arith),
    load8-ok b (offset + 12) (omega arith),
    load8-ok b 0 (omega arith),
    load16-ok b 2 (omega (arith, pkt.long)),
    load32-ok b (offset + 8) (omega arith),
    load32-ok b (offset + 4) (omega arith),
    pkt.header,
    swaps,
    tcp_swap_port-ok b1 offset (omega arith),
    store16-ok (with_bytes b1 (ports b1.at offset)) 2 (htons (offset + hlen)) (omega arith),
    set_fields-ok (with_bytes b1 (swapped b1)) offset (omega arith) seq_no ack_no (hlen / 4 * 16)
        pl_flags 0,
    deleted,
  )

  module _ (b1 : Buf) (w : IsSwapped b b1) where
    abbrev out : Buf
    out = with_bytes b1 (answer b1)

    swapped_ports : (j : ℕ) → offset ≤ j → j < offset + 4 → out.at j ≡ ports b1.at offset j
    swapped_ports j lo hi =
        fields-other (swapped b1) offset seq_no ack_no (hlen / 4 * 16) pl_flags 0 j (omega arith)
        ∙ put16-other (ports b1.at offset) 2 (htons (offset + hlen)) j (omega (arith, pkt.long))

    out_address : (j : ℕ) → 12 ≤ j → j < 20 → out.at j ≡ b1.at j
    out_address j lo hi =
        fields-other (swapped b1) offset seq_no ack_no (hlen / 4 * 16) pl_flags 0 j
          (omega (arith, pkt.long))
        ∙ put16-other (ports b1.at offset) 2 (htons (offset + hlen)) j (omega arith)
        ∙ ports-other b1.at offset j (omega (arith, pkt.long))

    out_ports :
        (word16 out.at offset ≡ word16 b.at (offset + 2))
        × (word16 out.at (offset + 2) ≡ word16 b.at offset)
    out_ports =
        let (src, dst) = ports_swapped b1.at offset w.bytes in
        let lo = pkt.long in
        let same = λ (j : ℕ) (less : 20 ≤ j). w.other j (omega arith) in
        let port = λ (j : ℕ) (at : offset ≤ j) (less : j < offset + 4). swapped_ports j at less in
        (
          omega (
            arith,
            port offset (omega arith) (omega arith),
            port (offset + 1) (omega arith) (omega arith),
            src,
            same (offset + 2) (omega arith),
            same (offset + 2 + 1) (omega arith),
          ),
          omega (
            arith,
            port (offset + 2) (omega arith) (omega arith),
            port (offset + 2 + 1) (omega arith) (omega arith),
            dst,
            same offset (omega arith),
            same (offset + 1) (omega arith),
          ),
        )

    rst_parts :
        (s s' : Table) (a : ConId) (p : Ptr)
        → Deletes s a p s'
        → IsReset env b offset s a p (offset + hlen, out, s')
    rst_parts s s' a p deletes =
        let (seq, ack) =
          fields_numbers (swapped b1) offset seq_no ack_no (hlen / 4 * 16) pl_flags 0 in
        let (_, flags, window, _) =
          fields_rest (swapped b1) offset seq_no ack_no (hlen / 4 * 16) pl_flags 0 in
        let (from, to) = out_ports in
        record {
          length = refl;
          size = w.size;
          bytes = fields-IsBytes (swapped b1) offset seq_no ack_no (hlen / 4 * 16) pl_flags 0 (
              put16-IsBytes (ports b1.at offset) 2 (htons (offset + hlen))
                (ports-IsBytes b1.at offset w.bytes));
          src = omega (
            arith,
            out_address 12 (omega arith) (omega arith),
            out_address 13 (omega arith) (omega arith),
            out_address 14 (omega arith) (omega arith),
            out_address 15 (omega arith) (omega arith),
            w.src,
          );
          dst = omega (
            arith,
            out_address 16 (omega arith) (omega arith),
            out_address 17 (omega arith) (omega arith),
            out_address 18 (omega arith) (omega arith),
            out_address 19 (omega arith) (omega arith),
            w.dst,
          );
          src_port = from;
          dst_port = to;
          answers_ack = λ e. (
            flags ∙ rw e refl,
            read_back _ seq_no seq
                ∙ (ap (λ (x : ℕ). x % 2 ^ 32) (seq_answered e)
                    ∙ omega (arith, ntohl-lt (word32 b.at (offset + 8)))),
          );
          acknowledges = λ e. read_back _ ack_no ack ∙ rw e (omega arith);
          window = window;
          table = deletes;
        }

  -- For a packet with room for both headers and a valid table that holds the block `p` under `a`,
  -- `tcp_rst` meets no fault and its result is as `IsReset` says.
  pub tcp_rst-IsReset :
      (s : Table) (a : ConId) (p : Ptr)
      → IsTable s
      → Holds s a p
      → Returns (tcp_rst env s (some p) b offset) (IsReset env b offset s a p)
  tcp_rst-IsReset s a p valid holds =
      let (b1, swaps, w) = ip_swap_dst-IsSwapped b pkt.bytes (omega (arith, pkt.long)) in
      let (s', deleted, deletes) = hash_delete-Deletes s a p valid holds in
      (
        (offset + hlen, with_bytes b1 (answer b1), s'),
        run_rst s s' p b1 swaps w.size (unfold delete_tcb in deleted),
        rst_parts b1 w s s' a p deletes,
      )
