-- ===== src/Legacy/Segment/Seal.antt =====
-- The checksums that end each segment of the older server.
use lazy_tcp.Prelude.{
  ℕ, ◌+◌, ◌-◌, ◌^◌, ◌≤◌, ◌<◌, ◌≡◌, ◌⊎◌, refl, arith, ok, Returns, ap, sym, ◌∙◌, fun_ext,
}
use lazy_tcp.Word.{not16, htons}
use lazy_tcp.Buf.{Buf, IsBytes, word32, put8, put16, put32, copy, with_bytes}
use lazy_tcp.Buf.Access.{
  load32-ok, store8-ok, store16-ok, store32-ok, memcpy-ok, put16-IsBytes, put16-other, copy-IsBytes,
}
use lazy_tcp.Checksum.{checksum, fold_carry}
use lazy_tcp.Checksum.Stamp.{stamp-IsStamped}
use lazy_tcp.Checksum.Sum.{word_sum, checksum-ok, checksum-same}
use lazy_tcp.Transport.Sum.{
  pseudo_bytes, pseudo_sum, segment_sum, pseudo_bytes-sum, pseudo_bytes-IsBytes, ghost, ghost-sum,
  tcp_sum,
}
use lazy_tcp.Transport.Verify.{sign, put16_twice, segment_sum-signed}
use lazy_tcp.Legacy.Sums.{packet_checksum-checksum, ip_update_checksum-stamp}
use lazy_tcp.Legacy.Segment.{tcp_update_checksum, seal}

module _ (stack : ℕ → ℕ) (b : Buf) (offset n : ℕ) (stack_bytes : IsBytes stack)
    (bytes : IsBytes b.at) (low : 20 ≤ offset) (inside : offset + n ≤ b.size)
    (room : offset + 18 ≤ b.size) (small : n + 12 < 2 ^ 16) (proto : b.at 9 ≡ 6) where
  abbrev cleared : Buf
  cleared = with_bytes b (put16 b.at (offset + 16) 0)

  abbrev header : ℕ → ℕ
  header = pseudo_bytes stack (word32 b.at 12) (word32 b.at 16) 6 n

  abbrev pseudo : Buf
  pseudo = record { size = 12; at = header }

  ghost_buf : Buf
  ghost_buf = record { size = n + 12 + 1; at = ghost stack header cleared.at offset n }

  ghost_buf-IsBytes : IsBytes ghost_buf.at
  unfolding ghost_buf ghost
  ghost_buf-IsBytes =
      copy-IsBytes _ 12 cleared.at offset n
        (copy-IsBytes stack 0 header 0 12 stack_bytes
          (pseudo_bytes-IsBytes stack (word32 b.at 12) (word32 b.at 16) 6 n stack_bytes))
        (put16-IsBytes b.at (offset + 16) 0 bytes)

  header_sum : word_sum header 0 12 ≡ pseudo_sum b.at n
  header_sum = rw (sym proto) (pseudo_bytes-sum stack b.at n bytes)

  ghost_buf-sum :
      not16 (fold_carry (word_sum ghost_buf.at 0 (n + 12))) ≡ tcp_sum b.at (offset + n) offset
  unfolding ghost_buf tcp_sum
  ghost_buf-sum =
      let minus : offset + n - offset ≡ n = omega arith in
      let order : n + 12 ≡ 12 + n = omega arith in
      let sums : word_sum ghost_buf.at 0 (n + 12)
          ≡ pseudo_sum b.at n + word_sum cleared.at offset n =
        rw order (
          ghost-sum stack header cleared.at offset n
          ∙ ap (λ (s : ℕ). s + word_sum cleared.at offset n) header_sum) in
      rw (minus, sums)

  tcp_update_checksum-ok :
      tcp_update_checksum stack b offset n pseudo
      ≡ ok (with_bytes b (sign b.at (offset + n) offset))
  unfolding tcp_update_checksum ghost ghost_buf
  tcp_update_checksum-ok =
      let g0 : Buf = record { size = n + 12 + 1; at = stack } in
      let g1 = with_bytes g0 (copy stack 0 header 0 12) in
      let c = tcp_sum b.at (offset + n) offset in
      rw
        (
          store16-ok b (offset + 16) 0 (omega arith),
          memcpy-ok g0 0 pseudo 0 12 (omega arith) (omega arith),
          memcpy-ok g1 12 cleared offset n (omega arith) (omega arith),
          packet_checksum-checksum ghost_buf 0 (n + 12),
          checksum-ok ghost_buf 0 (n + 12) ghost_buf-IsBytes (omega arith) (omega arith),
          ghost_buf-sum,
          store16-ok cleared (offset + 16) c (omega arith),
        )
        (ap (λ (f : ℕ → ℕ). ok (with_bytes b f))
          (fun_ext (λ j. put16_twice b.at (offset + 16) 0 c j)))

-- Only the checksum fields have changed, the header sums to 0, and so do pseudo header and segment
-- where the segment is long enough to hold its checksum.
pub record IsSealed (b : Buf) (offset n : ℕ) (c : Buf) : Type 0 where
  pub size : c.size ≡ b.size
  pub bytes : IsBytes c.at
  pub header_sums : checksum c 0 offset ≡ ok 0
  pub segment_sums : 18 ≤ n → not16 (fold_carry (segment_sum c.at (offset + n) offset)) ≡ 0
  pub other :
      (j : ℕ) → (j < 10) ⊎ (11 < j) → (j < offset + 16) ⊎ (offset + 17 < j) → c.at j ≡ b.at j

-- For a packet of bytes with a header of at least 20 bytes for TCP, and a segment in the buffer,
-- `seal` meets no fault and sets both checksums as `IsSealed` says.
pub seal-IsSealed :
    (stack : ℕ → ℕ) (b : Buf) (offset n : ℕ)
    → IsBytes stack
    → IsBytes b.at
    → 20 ≤ offset
    → offset < 2 ^ 16
    → offset + n ≤ b.size
    → offset + 18 ≤ b.size
    → n + 12 < 2 ^ 16
    → b.at 9 ≡ 6
    → Returns (seal stack b offset offset n) (IsSealed b offset n)
unfolding seal pseudo_bytes
seal-IsSealed stack b offset n stack_bytes bytes low short inside room small proto =
    let (d, run, s) = stamp-IsStamped b 0 5 offset bytes (omega arith) short (omega arith) in
    let run' = ip_update_checksum-stamp b offset ∙ run in
    let size : d.size ≡ b.size = s.size in
    let p0 : Buf = record { size = 12; at = stack } in
    let p1 = with_bytes p0 (put32 stack 0 (word32 d.at 12)) in
    let p2 = with_bytes p0 (put32 p1.at 4 (word32 d.at 16)) in
    let p3 = with_bytes p0 (put8 p2.at 8 0) in
    let p4 = with_bytes p0 (put8 p3.at 9 6) in
    let proto' : d.at 9 ≡ 6 = s.other 9 (omega arith) ∙ proto in
    let c = with_bytes d (sign d.at (offset + n) offset) in
    let c_bytes = put16-IsBytes d.at (offset + 16) (tcp_sum d.at (offset + n) offset) s.bytes in
    let keeps = put16-other d.at (offset + 16) (tcp_sum d.at (offset + n) offset) in
    (
      c,
      rw
          (
            run',
            load32-ok d 12 (omega arith),
            load32-ok d 16 (omega arith),
            store32-ok p0 0 (word32 d.at 12) (omega arith),
            store32-ok p1 4 (word32 d.at 16) (omega arith),
            store8-ok p2 8 0 (omega arith),
            store8-ok p3 9 6 (omega arith),
            store16-ok p4 10 (htons n) (omega arith),
          )
          (tcp_update_checksum-ok stack d offset n stack_bytes s.bytes low (omega arith)
            (omega arith) small proto'),
      record {
        size = size;
        bytes = c_bytes;
        header_sums =
            checksum-same d c 0 offset s.bytes c_bytes (omega arith) refl short
              (λ j lo hi. keeps j (omega arith))
            ∙ s.sums;
        segment_sums = λ long. segment_sum-signed d.at (offset + n) offset low (omega arith);
        other = λ j lo hi. keeps j (omega arith) ∙ s.other j lo;
      },
    )
