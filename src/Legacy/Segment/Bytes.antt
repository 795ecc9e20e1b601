-- ===== src/Legacy/Segment/Bytes.antt =====
-- The bytes of a segment of the older server before its checksums are set. The routines store the
-- fields in different orders, with the same result.
use native.Mathlib.Nat.{add-zero}
use lazy_tcp.Prelude.{ℕ, ◌+◌, ◌*◌, ◌/◌, ◌%◌, ◌^◌, ◌≤◌, ◌<◌, ◌≡◌, ◌⊎◌, arith, ok, ap, ◌∙◌, fun_ext}
use lazy_tcp.Word.{htons, htonl, ntohs-lt}
use lazy_tcp.Buf.{Buf, IsBytes, word16, word32, put8, put16, put32, copy, with_bytes}
use lazy_tcp.Buf.Access.{
  load16-ok, store16-ok, put16-IsBytes, put16-other, word16-put16, copy-IsBytes,
}
use lazy_tcp.Layout.{Ipv4, ip_at, Tcp, tcp_at}
use lazy_tcp.Ip.Laws.{IsSwapped}
use lazy_tcp.Segment.Bytes.{
  ports, fields, ports-IsBytes, ports-other, ports_swapped, fields-IsBytes, fields-other,
  fields_numbers, fields_rest, word32-same,
}
use lazy_tcp.Legacy.Segment.{tcp_switch_port}

-- stores at places apart commute
module _ (f : ℕ → ℕ) (i v k w : ℕ) where
  put32-put16 : i + 2 ≤ k → put32 (put16 f i v) k w ≡ put16 (put32 f k w) i v
  unfolding put16 put32
  put32-put16 h = fun_ext (λ j. ground arith)

  put8-put16 : (i + 2 ≤ k) ⊎ (k < i) → put8 (put16 f i v) k w ≡ put16 (put8 f k w) i v
  unfolding put8 put16
  put8-put16 h = fun_ext (λ j. ground arith)

  put16-put16 : (i + 2 ≤ k) ⊎ (k + 2 ≤ i) → put16 (put16 f i v) k w ≡ put16 (put16 f k w) i v
  unfolding put16
  put16-put16 h = fun_ext (λ j. ground arith)

pub tcp_switch_port-ok :
    (b : Buf) (tcp : ℕ)
    → tcp + 4 ≤ b.size
    → tcp_switch_port b tcp ≡ ok (with_bytes b (ports b.at tcp))
unfolding tcp_switch_port ports
tcp_switch_port-ok b tcp room =
    let src = word16 b.at (tcp + 0) in
    let dst = word16 b.at (tcp + 2) in
    rw
      (
        load16-ok b (tcp + 2) (omega arith),
        load16-ok b (tcp + 0) (omega arith),
        store16-ok b (tcp + 2) src (omega arith),
        store16-ok (with_bytes b (put16 b.at (tcp + 2) src)) (tcp + 0) dst (omega arith),
      )
      (ap (λ (f : ℕ → ℕ). ok (with_bytes b f))
        (put16-put16 b.at (tcp + 2) src (tcp + 0) dst (omega arith)))

-- what a segment is to say
pub record Wanted : Type 0 where
  pub seq_num : ℕ
  pub ack_num : ℕ
  pub flags : ℕ
  pub window : ℕ
  pub body : ℕ → ℕ
  pub body_len : ℕ

-- the bytes once the fields, the payload and the total length are set
unfoldable pub assembled : (f : ℕ → ℕ) → (offset hlen : ℕ) → Wanted → ℕ → ℕ
assembled f offset hlen w =
    put16
      (copy
        (fields (ports f offset) offset w.seq_num w.ack_num (hlen / 4 * 16) w.flags
          (htons w.window))
        (offset + hlen) w.body 0 w.body_len)
      2 (htons (offset + hlen + w.body_len))

pub copy_nothing : (f : ℕ → ℕ) (d : ℕ) (g : ℕ → ℕ) → copy f d g 0 0 ≡ f
unfolding copy
copy_nothing f d g = fun_ext (λ j. ground arith)

module _ (f : ℕ → ℕ) (offset seq ack data_offset flags window : ℕ) where
  -- The total length may be stored before the fields.
  pub fields-put16 :
      (v : ℕ)
      → 4 ≤ offset
      → fields (put16 f 2 v) offset seq ack data_offset flags window
        ≡ put16 (fields f offset seq ack data_offset flags window) 2 v
  unfolding fields
  fields-put16 v low =
      let f1 = put32 f (offset + 4) (htonl seq) in
      let f2 = put32 f1 (offset + 8) (htonl ack) in
      let f3 = put8 f2 (offset + 12) data_offset in
      let f4 = put8 f3 (offset + 13) flags in
      let f5 = put16 f4 (offset + 14) window in
      rw (
        put32-put16 f 2 v (offset + 4) (htonl seq) (omega arith),
        put32-put16 f1 2 v (offset + 8) (htonl ack) (omega arith),
        put8-put16 f2 2 v (offset + 12) data_offset (omega arith),
        put8-put16 f3 2 v (offset + 13) flags (omega arith),
        put16-put16 f4 2 v (offset + 14) window (omega arith),
        put16-put16 f5 2 v (offset + 18) 0 (omega arith),
      )

  -- The flags may be stored last.
  pub fields_flags_last :
      put8
        (put16
          (put16
            (put8
              (put32 (put32 f (offset + 4) (htonl seq)) (offset + 8) (htonl ack))
              (offset + 12)
              data_offset)
            (offset + 14)
            window)
          (offset + 18)
          0)
        (offset + 13)
        flags
      ≡ fields f offset seq ack data_offset flags window
  unfolding fields
  fields_flags_last =
      let f3 =
        put8 (put32 (put32 f (offset + 4) (htonl seq)) (offset + 8) (htonl ack)) (offset + 12)
          data_offset in
      rw (
        put8-put16 (put16 f3 (offset + 14) window) (offset + 18) 0 (offset + 13) flags
            (omega arith),
        put8-put16 f3 (offset + 14) window (offset + 13) flags (omega arith),
      )

-- a segment without a payload
abbrev pub bare : (seq_num ack_num flags window : ℕ) → Wanted
bare seq_num ack_num flags window = record {
  seq_num = seq_num;
  ack_num = ack_num;
  flags = flags;
  window = window;
  body = λ _. 0;
  body_len = 0;
}

pub assembled-bare :
    (f : ℕ → ℕ) (offset hlen seq_num ack_num flags window : ℕ)
    → assembled f offset hlen (bare seq_num ack_num flags window)
      ≡ put16
          (fields (ports f offset) offset seq_num ack_num (hlen / 4 * 16) flags (htons window))
          2
          (htons (offset + hlen))
unfolding assembled
assembled-bare f offset hlen seq_num ack_num flags window =
    let set = fields (ports f offset) offset seq_num ack_num (hlen / 4 * 16) flags (htons window) in
    ap (λ (g : ℕ → ℕ). put16 g 2 (htons (offset + hlen + 0)))
      (copy_nothing set (offset + hlen) (λ _. 0))
    ∙ ap (λ (n : ℕ). put16 set 2 (htons n)) (add-zero (offset + hlen))

-- The payload leaves the TCP header alone.
abbrev pub Behind : ℕ → Wanted → Type 0
Behind hlen w = (w.body_len ≡ 0) ⊎ (20 ≤ hlen)

-- ports exchanged, and the fields and the payload as wanted
pub record HasFields (b : Buf) (offset hlen : ℕ) (w : Wanted) (c : Buf) : Type 0 where
  pub src_port : word16 c.at offset ≡ word16 b.at (offset + tcp_at Tcp.dst_port)
  pub dst_port : word16 c.at (offset + tcp_at Tcp.dst_port) ≡ word16 b.at offset
  pub seq_num : word32 c.at (offset + tcp_at Tcp.seq_num) ≡ htonl w.seq_num % 2 ^ 32
  pub ack_num : word32 c.at (offset + tcp_at Tcp.ack_num) ≡ htonl w.ack_num % 2 ^ 32
  pub flags : c.at (offset + tcp_at Tcp.flags) ≡ w.flags % 2 ^ 8
  pub window : word16 c.at (offset + tcp_at Tcp.window) ≡ htons w.window % 2 ^ 16
  pub payload : (j : ℕ) → j < w.body_len → c.at (offset + hlen + j) ≡ w.body j

-- A packet of the same size with addresses exchanged, the total length as wanted, and such fields
-- if the payload does not overwrite them.
pub record IsHeaded (b : Buf) (offset hlen : ℕ) (w : Wanted) (c : Buf) : Type 0 where
  pub size : c.size ≡ b.size
  pub bytes : IsBytes c.at
  pub first : c.at 0 ≡ b.at 0
  pub proto : c.at 9 ≡ b.at 9
  pub src : word32 c.at (ip_at Ipv4.src) ≡ word32 b.at (ip_at Ipv4.dst)
  pub dst : word32 c.at (ip_at Ipv4.dst) ≡ word32 b.at (ip_at Ipv4.src)
  pub total : word16 c.at (ip_at Ipv4.len) ≡ htons (offset + hlen + w.body_len)
  pub fields : Behind hlen w → HasFields b offset hlen w c

module _ (b b1 : Buf) (s : IsSwapped b b1) (offset hlen : ℕ) (w : Wanted) (low : 20 ≤ offset) where
  abbrev set : ℕ → ℕ
  set =
      fields (ports b1.at offset) offset w.seq_num w.ack_num (hlen / 4 * 16) w.flags
        (htons w.window)

  abbrev out : ℕ → ℕ
  out = assembled b1.at offset hlen w

  -- the TCP header is that of the stores
  out_set : Behind hlen w → (j : ℕ) → offset ≤ j → j < offset + 20 → out j ≡ set j
  unfolding assembled copy
  out_set behind j lo hi =
      put16-other _ 2 (htons (offset + hlen + w.body_len)) j (ground arith) ∙ ground arith

  out_head : (j : ℕ) → j < offset → (j < 2) ⊎ (3 < j) → out j ≡ b1.at j
  unfolding assembled copy
  out_head j lo hi =
      put16-other _ 2 (htons (offset + hlen + w.body_len)) j (ground arith)
      ∙ ground (
        arith,
        fields-other (ports b1.at offset) offset w.seq_num w.ack_num (hlen / 4 * 16) w.flags
            (htons w.window) j (omega arith),
        ports-other b1.at offset j (omega arith),
      )

  out_ports : Behind hlen w → (j : ℕ) → offset ≤ j → j < offset + 4 → out j ≡ ports b1.at offset j
  out_ports behind j lo hi =
      out_set behind j lo (omega arith)
      ∙ fields-other (ports b1.at offset) offset w.seq_num w.ack_num (hlen / 4 * 16) w.flags
          (htons w.window) j (omega arith)

  out_two_ports :
      Behind hlen w
      → (word16 out offset ≡ word16 b.at (offset + 2))
        × (word16 out (offset + 2) ≡ word16 b.at offset)
  out_two_ports behind =
      let (src, dst) = ports_swapped b1.at offset s.bytes in
      let same = λ (j : ℕ) (less : 20 ≤ j). s.other j (omega arith) in
      (
        omega (
          arith,
          out_ports behind offset (omega arith) (omega arith),
          out_ports behind (offset + 1) (omega arith) (omega arith),
          src,
          same (offset + 2) (omega arith),
          same (offset + 2 + 1) (omega arith),
        ),
        omega (
          arith,
          out_ports behind (offset + 2) (omega arith) (omega arith),
          out_ports behind (offset + 2 + 1) (omega arith) (omega arith),
          dst,
          same offset (omega arith),
          same (offset + 1) (omega arith),
        ),
      )

  out_total : word16 out 2 ≡ htons (offset + hlen + w.body_len)
  unfolding assembled
  out_total =
      word16-put16 _ 2 (htons (offset + hlen + w.body_len))
      ∙ omega (arith, ntohs-lt (offset + hlen + w.body_len))

  out_payload : (j : ℕ) → j < w.body_len → out (offset + hlen + j) ≡ w.body j
  unfolding assembled copy
  out_payload j less =
      put16-other _ 2 (htons (offset + hlen + w.body_len)) (offset + hlen + j) (omega arith)
      ∙ ground arith

  out-IsBytes : IsBytes w.body → IsBytes out
  unfolding assembled
  out-IsBytes body_bytes = put16-IsBytes _ 2 _ (
      copy-IsBytes _ (offset + hlen) w.body 0 w.body_len
        (fields-IsBytes _ offset _ _ _ _ _ (ports-IsBytes b1.at offset s.bytes)) body_bytes)

  assembled-HasFields : Behind hlen w → HasFields b offset hlen w (with_bytes b1 out)
  assembled-HasFields behind =
      let (seq, ack) =
        fields_numbers (ports b1.at offset) offset w.seq_num w.ack_num (hlen / 4 * 16) w.flags
          (htons w.window) in
      let (_, flags, window, _) =
        fields_rest (ports b1.at offset) offset w.seq_num w.ack_num (hlen / 4 * 16) w.flags
          (htons w.window) in
      let (from, to) = out_two_ports behind in
      record {
        src_port = from;
        dst_port = to;
        seq_num =
            word32-same out set (offset + 4)
              (λ i h. out_set behind (offset + 4 + i) (omega arith) (omega arith))
            ∙ seq;
        ack_num =
            word32-same out set (offset + 8)
              (λ i h. out_set behind (offset + 8 + i) (omega arith) (omega arith))
            ∙ ack;
        flags = out_set behind (offset + 13) (omega arith) (omega arith) ∙ flags;
        window = omega (
          arith,
          out_set behind (offset + 14) (omega arith) (omega arith),
          out_set behind (offset + 14 + 1) (omega arith) (omega arith),
          window,
        );
        payload = out_payload;
      }

  pub assembled-IsHeaded : IsBytes w.body → IsHeaded b offset hlen w (with_bytes b1 out)
  assembled-IsHeaded body_bytes =
      let head = λ (j : ℕ) (lo : 4 ≤ j) (hi : j < 20). out_head j (omega arith) (omega arith) in
      record {
        size = s.size;
        bytes = out-IsBytes body_bytes;
        first = out_head 0 (omega arith) (omega arith) ∙ s.other 0 (omega arith);
        proto = out_head 9 (omega arith) (omega arith) ∙ s.other 9 (omega arith);
        src = omega (
          arith,
          head 12 (omega arith) (omega arith),
          head 13 (omega arith) (omega arith),
          head 14 (omega arith) (omega arith),
          head 15 (omega arith) (omega arith),
          s.src,
        );
        dst = omega (
          arith,
          head 16 (omega arith) (omega arith),
          head 17 (omega arith) (omega arith),
          head 18 (omega arith) (omega arith),
          head 19 (omega arith) (omega arith),
          s.dst,
        );
        total = out_total;
        fields = assembled-HasFields;
      }
