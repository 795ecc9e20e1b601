-- ===== src/Segment/Bytes.antt =====
-- What the writes of a segment do to the bytes of the packet.
use lazy_tcp.Prelude.{ℕ, ◌+◌, ◌%◌, ◌^◌, ◌≤◌, ◌<◌, ◌≡◌, ◌⊎◌, arith, ok, ◌∙◌}
use lazy_tcp.Word.{htonl}
use lazy_tcp.Buf.{Buf, IsBytes, word16, word32, put8, put16, put32, with_bytes}
use lazy_tcp.Buf.Access.{
  load16-ok, store8-ok, store16-ok, store32-ok, put8-IsBytes, put16-IsBytes, put32-IsBytes,
  put32-other, word32-put32,
}
use native.Mathlib.Nat.{add-zero}
use lazy_tcp.Segment.{tcp_swap_port, set_fields}

-- the ports exchanged
unfoldable pub ports : (ℕ → ℕ) → ℕ → ℕ → ℕ
ports f tcp = put16 (put16 f (tcp + 0) (word16 f (tcp + 2))) (tcp + 2) (word16 f (tcp + 0))

-- the fields from the sequence number on, but for the checksum
unfoldable pub fields : (ℕ → ℕ) → (tcp seq_no ack_no data_offset flags window : ℕ) → ℕ → ℕ
fields f tcp seq_no ack_no data_offset flags window =
    put16
      (put16
        (put8
          (put8 (put32 (put32 f (tcp + 4) (htonl seq_no)) (tcp + 8) (htonl ack_no)) (tcp + 12)
            data_offset)
          (tcp + 13) flags)
        (tcp + 14) window)
      (tcp + 18) 0

module _ (b : Buf) (tcp : ℕ) (room : tcp + 20 ≤ b.size) where
  pub tcp_swap_port-ok : tcp_swap_port b tcp ≡ ok (with_bytes b (ports b.at tcp))
  unfolding tcp_swap_port ports
  tcp_swap_port-ok = rw (
    load16-ok b (tcp + 0) (omega arith),
    load16-ok b (tcp + 2) (omega arith),
    store16-ok b (tcp + 0) (word16 b.at (tcp + 2)) (omega arith),
    store16-ok (with_bytes b (put16 b.at (tcp + 0) (word16 b.at (tcp + 2)))) (tcp + 2)
        (word16 b.at (tcp + 0)) (omega arith),
  )

  pub set_fields-ok :
      (seq_no ack_no data_offset flags window : ℕ)
      → set_fields b tcp seq_no ack_no data_offset flags window
        ≡ ok (with_bytes b (fields b.at tcp seq_no ack_no data_offset flags window))
  unfolding set_fields fields
  set_fields-ok seq_no ack_no data_offset flags window =
      let b1 = with_bytes b (put32 b.at (tcp + 4) (htonl seq_no)) in
      let b2 = with_bytes b (put32 b1.at (tcp + 8) (htonl ack_no)) in
      let b3 = with_bytes b (put8 b2.at (tcp + 12) data_offset) in
      let b4 = with_bytes b (put8 b3.at (tcp + 13) flags) in
      let b5 = with_bytes b (put16 b4.at (tcp + 14) window) in
      rw (
        store32-ok b (tcp + 4) (htonl seq_no) (omega arith),
        store32-ok b1 (tcp + 8) (htonl ack_no) (omega arith),
        store8-ok b2 (tcp + 12) data_offset (omega arith),
        store8-ok b3 (tcp + 13) flags (omega arith),
        store16-ok b4 (tcp + 14) window (omega arith),
        store16-ok b5 (tcp + 18) 0 (omega arith),
      )

pub word32-same :
    (f g : ℕ → ℕ) (p : ℕ) → ((i : ℕ) → i < 4 → f (p + i) ≡ g (p + i)) → word32 f p ≡ word32 g p
word32-same f g p h =
    let zero_place : f p ≡ g p = simp add-zero at (h 0 (omega arith)) in
    ground (arith, zero_place, h 1, h 2, h 3)

module _ (f : ℕ → ℕ) (tcp : ℕ) where
  pub ports-IsBytes : IsBytes f → IsBytes (ports f tcp)
  unfolding ports
  ports-IsBytes h = put16-IsBytes _ (tcp + 2) _ (put16-IsBytes f (tcp + 0) _ h)

  pub ports-other : (j : ℕ) → (j < tcp) ⊎ (tcp + 3 < j) → ports f tcp j ≡ f j
  unfolding ports put16
  ports-other j h = ground arith

  pub ports_swapped :
      IsBytes f
      → (word16 (ports f tcp) tcp ≡ word16 f (tcp + 2))
        × (word16 (ports f tcp) (tcp + 2) ≡ word16 f tcp)
  unfolding ports put16
  ports_swapped h = (ground (arith, h (tcp + 2), h (tcp + 3)), ground (arith, h tcp, h (tcp + 1)))

  module _ (seq_no ack_no data_offset flags window : ℕ) where
    abbrev set : ℕ → ℕ
    set = fields f tcp seq_no ack_no data_offset flags window

    pub fields-IsBytes : IsBytes f → IsBytes set
    unfolding fields
    fields-IsBytes h = put16-IsBytes _ (tcp + 18) 0 (
        put16-IsBytes _ (tcp + 14) window (
          put8-IsBytes _ (tcp + 13) flags (
            put8-IsBytes _ (tcp + 12) data_offset (
              put32-IsBytes _ (tcp + 8) (htonl ack_no)
                (put32-IsBytes f (tcp + 4) (htonl seq_no) h)))))

    pub fields-other : (j : ℕ) → (j < tcp + 4) ⊎ (tcp + 19 < j) → set j ≡ f j
    unfolding fields put8 put16 put32
    fields-other j h = ground arith

    -- the writes behind the numbers leave them alone
    fields_inner :
        (j : ℕ)
        → j < tcp + 12
        → set j ≡ put32 (put32 f (tcp + 4) (htonl seq_no)) (tcp + 8) (htonl ack_no) j
    unfolding fields put8 put16
    fields_inner j h = ground arith

    pub fields_numbers :
        (word32 set (tcp + 4) ≡ htonl seq_no % 2 ^ 32)
        × (word32 set (tcp + 8) ≡ htonl ack_no % 2 ^ 32)
    fields_numbers =
        let seq = put32 f (tcp + 4) (htonl seq_no) in
        let ack = put32 seq (tcp + 8) (htonl ack_no) in
        let keep = λ (i : ℕ) (h : i < 4).
          put32-other seq (tcp + 8) (htonl ack_no) (tcp + 4 + i) (ground arith) in
        (
          word32-same set (put32 f (tcp + 4) (htonl seq_no)) (tcp + 4)
                (λ i h. fields_inner (tcp + 4 + i) (omega arith) ∙ keep i h)
              ∙ word32-put32 f (tcp + 4) (htonl seq_no),
          word32-same set ack (tcp + 8) (λ i h. fields_inner (tcp + 8 + i) (omega arith))
              ∙ word32-put32 seq (tcp + 8) (htonl ack_no),
        )

    pub fields_rest :
        (set (tcp + 12) ≡ data_offset % 2 ^ 8)
        × (set (tcp + 13) ≡ flags % 2 ^ 8)
        × (word16 set (tcp + 14) ≡ window % 2 ^ 16)
        × (word16 set (tcp + 18) ≡ 0)
    unfolding fields put8 put16 put32
    fields_rest = (ground arith, ground arith, ground arith, ground arith)
