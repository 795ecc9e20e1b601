-- ===== src/Ip/Laws.antt =====
-- What the IPv4 routines do to the buffer.
use lazy_tcp.Prelude.{ℕ, ◌+◌, ◌-◌, ◌/◌, ◌^◌, ◌≤◌, ◌<◌, ◌≡◌, ◌⊎◌, refl, arith, ok, Returns, ◌∙◌, ap}
use lazy_tcp.Prelude.{◌&&◌, true, ltb, leb, if◌then◌else◌, fun_ext}
use lazy_tcp.Buf.{Buf, IsBytes, word32, put32, copy, with_bytes}
use lazy_tcp.Buf.Access.{
  load8-ok, load32-ok, store32-ok, put32-IsBytes, put32-other, put32-word32, word32-put32,
}
use lazy_tcp.Checksum.{checksum}
use lazy_tcp.Checksum.Stamp.{IsStamped, stamp-IsStamped}
use lazy_tcp.Layout.{Ipv4, ip_at}
use lazy_tcp.Ip.{ihl_of, ip_validate, ip_swap_dst, ip_checksum}

-- the header length that the first byte states
abbrev pub header_length : Buf → ℕ
header_length b = ihl_of (b.at 0)

-- an IPv4 header that lies in the buffer, whatever its checksum
pub record HasHeader (b : Buf) : Type 0 where
  pub bytes : IsBytes b.at
  pub version : b.at 0 / 16 ≡ 4
  pub long : 20 ≤ header_length b
  pub fits : header_length b ≤ b.size

-- `ip_checksum` leaves all but the checksum as it was, and the header sums to 0.
pub ip_checksum-IsStamped :
    (b : Buf)
    → IsBytes b.at
    → 20 ≤ header_length b
    → header_length b ≤ b.size
    → Returns (ip_checksum b) (IsStamped b 0 10 (header_length b))
unfolding ip_checksum
ip_checksum-IsStamped b bytes long fits =
    rw (load8-ok b 0 (omega arith))
      (stamp-IsStamped b 0 5 (header_length b) bytes (omega arith) (omega arith) (omega arith))

pub ip_validate-of_sum :
    (b : Buf) (len : ℕ)
    → HasHeader b
    → header_length b ≤ len
    → checksum b 0 (header_length b) ≡ ok 0
    → ip_validate b len ≡ ok true
unfolding ip_validate
ip_validate-of_sum b len h long sums =
    rw (load8-ok b 0 (omega arith), sums) (ground (arith, h.version, h.long))

-- For an IPv4 header in the buffer that is no longer than the packet, `ip_checksum` meets no fault
-- and `ip_validate` accepts its result.
pub ip_validate-ip_checksum :
    (b : Buf) (len : ℕ)
    → HasHeader b
    → header_length b ≤ len
    → Returns (ip_checksum b) λ c. ip_validate c len ≡ ok true
ip_validate-ip_checksum b len h long =
    let (c, run, s) = ip_checksum-IsStamped b h.bytes h.long h.fits in
    let e : c.at 0 ≡ b.at 0 = s.other 0 (omega arith) in
    let same : header_length c ≡ header_length b = rw e in
    let h' : HasHeader c = record {
      bytes = s.bytes;
      version = rw e h.version;
      long = rw same h.long;
      fits = omega (arith, same, s.size, h.fits);
    } in
    (c, run, ip_validate-of_sum c len h' (rw same long) (rw same s.sums))

-- the bytes with the two addresses exchanged
abbrev pub exchange : (ℕ → ℕ) → ℕ → ℕ
exchange f j =
    if leb 12 j && ltb j 16 then f (j + 4) else if leb 16 j && ltb j 20 then f (j - 4) else f j

exchange_twice : (f : ℕ → ℕ) (j : ℕ) → exchange (exchange f) j ≡ f j
exchange_twice f j = ground arith

pub record IsSwapped (b c : Buf) : Type 0 where
  pub size : c.size ≡ b.size
  pub bytes : IsBytes c.at
  pub moved : (j : ℕ) → c.at j ≡ exchange b.at j
  pub src : word32 c.at (ip_at Ipv4.src) ≡ word32 b.at (ip_at Ipv4.dst)
  pub dst : word32 c.at (ip_at Ipv4.dst) ≡ word32 b.at (ip_at Ipv4.src)
  pub other : (j : ℕ) → (j < 12) ⊎ (19 < j) → c.at j ≡ b.at j

word32-lt : (f : ℕ → ℕ) (i : ℕ) → IsBytes f → word32 f i < 2 ^ 32
word32-lt f i h = omega (arith, h i, h (i + 1), h (i + 2), h (i + 3))

pub ip_swap_dst-IsSwapped :
    (b : Buf) → IsBytes b.at → 20 ≤ b.size → Returns (ip_swap_dst b) (IsSwapped b)
unfolding ip_swap_dst
ip_swap_dst-IsSwapped b bytes fits =
    let f = put32 b.at 12 (word32 b.at 16) in
    let g = put32 f 16 (word32 b.at 12) in
    (
      with_bytes b g,
      rw (
        load32-ok b 12 (omega arith),
        load32-ok b 16 (omega arith),
        store32-ok b 12 (word32 b.at 16) (omega arith),
        store32-ok (with_bytes b f) 16 (word32 b.at 12) (omega arith),
      ),
      record {
        size = refl;
        bytes = put32-IsBytes f 16 _ (put32-IsBytes b.at 12 _ bytes);
        moved = λ j.
            put32-word32 f 16 b.at 12 j bytes
            ∙ (unfold copy in ground (arith, put32-word32 b.at 12 b.at 16 j bytes));
        src = unfold put32 in omega (arith, word32-lt b.at 16 bytes);
        dst = omega (arith, word32-put32 f 16 (word32 b.at 12), word32-lt b.at 12 bytes);
        other = λ j h.
            put32-other f 16 (word32 b.at 12) j (ground arith)
            ∙ put32-other b.at 12 (word32 b.at 16) j (ground arith);
      },
    )

-- For bytes that hold a header, exchanging the addresses twice gives the packet back.
pub ip_swap_dst_twice :
    (b : Buf) → IsBytes b.at → 20 ≤ b.size → Returns (ip_swap_dst b) λ c. ip_swap_dst c ≡ ok b
ip_swap_dst_twice b bytes fits =
    let (c, run, s) = ip_swap_dst-IsSwapped b bytes fits in
    let (d, run', t) = ip_swap_dst-IsSwapped c s.bytes (rw s.size fits) in
    let same : (j : ℕ) → d.at j ≡ b.at j =
      λ j. t.moved j ∙ ground (arith, s.moved j, s.moved (j + 4), s.moved (j - 4)) in
    (c, run, run' ∙ ap ok (λ i. record { size = (t.size ∙ s.size) i; at = fun_ext same i }))

-- A packet of `len` bytes with its IPv4 header, of `offset` bytes: what `ip_validate` checks, but
-- for the header's checksum.
pub record IsPacket (b : Buf) (len offset : ℕ) : Type 0 where
  pub bytes : IsBytes b.at
  pub version : b.at 0 / 16 ≡ 4
  pub header : header_length b ≡ offset
  pub long : 20 ≤ offset
  pub inside : offset ≤ len
  pub fits : len ≤ b.size
  pub small : len < 2 ^ 16

-- Its header's sum is all that a packet needs to pass `ip_validate`.
pub ip_validate-packet :
    (b : Buf) (len offset : ℕ)
    → IsPacket b len offset
    → checksum b 0 offset ≡ ok 0
    → ip_validate b len ≡ ok true
ip_validate-packet b len offset p sums =
    ip_validate-of_sum b len
      (record {
        bytes = p.bytes;
        version = p.version;
        long = rw p.header p.long;
        fits = omega (arith, p.header, p.inside, p.fits);
      })
      (rw p.header p.inside) (rw p.header sums)

pub IsPacket-same :
    {b : Buf} {len offset : ℕ} (c : Buf)
    → IsPacket b len offset
    → c.size ≡ b.size
    → IsBytes c.at
    → c.at 0 ≡ b.at 0
    → IsPacket c len offset
IsPacket-same c p size bytes first = record {
  bytes = bytes;
  version = rw first p.version;
  header = rw first p.header;
  long = p.long;
  inside = p.inside;
  fits = rw size p.fits;
  small = p.small;
}
