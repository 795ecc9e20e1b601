-- ===== src/Legacy/Segment/Answer.antt =====
-- What the other side gets from a segment of the older server, once its checksums are set.
use lazy_tcp.Prelude.{ℕ, ◌+◌, ◌/◌, ◌%◌, ◌^◌, ◌≤◌, ◌<◌, ◌≡◌, ◌⊎◌, arith, true, ok, Returns, ap, ◌∙◌}
use lazy_tcp.Word.{not16, htons, htonl, ntohs, ntohl, ntohs-htons, ntohl-htonl, ntohs-lt, ntohl-lt}
use lazy_tcp.Buf.{Buf, IsBytes, word16, word32}
use lazy_tcp.Checksum.{fold_carry}
use lazy_tcp.Layout.{Ipv4, ip_at, Tcp, tcp_at}
use lazy_tcp.Ip.{ip_validate}
use lazy_tcp.Ip.Laws.{IsPacket, header_length, ip_validate-packet}
use lazy_tcp.Segment.Bytes.{word32-same}
use lazy_tcp.Transport.Sum.{segment_sum}
use lazy_tcp.Legacy.Segment.{seal}
use lazy_tcp.Legacy.Segment.Seal.{IsSealed, seal-IsSealed}
use lazy_tcp.Legacy.Segment.Bytes.{Wanted, Behind, IsHeaded}

-- ports exchanged, and the numbers, flags, window and payload as wanted
pub record Says (b : Buf) (offset hlen : ℕ) (w : Wanted) (c : Buf) : Type 0 where
  pub src_port : word16 c.at offset ≡ word16 b.at (offset + tcp_at Tcp.dst_port)
  pub dst_port : word16 c.at (offset + tcp_at Tcp.dst_port) ≡ word16 b.at offset
  pub seq_num : ntohl (word32 c.at (offset + tcp_at Tcp.seq_num)) ≡ w.seq_num % 2 ^ 32
  pub ack_num : ntohl (word32 c.at (offset + tcp_at Tcp.ack_num)) ≡ w.ack_num % 2 ^ 32
  pub flags : c.at (offset + tcp_at Tcp.flags) ≡ w.flags % 2 ^ 8
  pub window : ntohs (word16 c.at (offset + tcp_at Tcp.window)) ≡ w.window % 2 ^ 16
  pub payload : 20 ≤ hlen → (j : ℕ) → j < w.body_len → c.at (offset + hlen + j) ≡ w.body j

-- A packet that its receiver accepts: addresses exchanged, the total length, both checksums right,
-- and what it is to say. The TCP checksum needs a header length of at least 20, and so do the
-- fields of a segment with a payload, which else overwrites them.
pub record IsAnswer (b : Buf) (offset hlen : ℕ) (w : Wanted) (c : Buf) : Type 0 where
  pub size : c.size ≡ b.size
  pub bytes : IsBytes c.at
  pub total : ntohs (word16 c.at (ip_at Ipv4.len)) ≡ offset + hlen + w.body_len
  pub ip_accepts : ip_validate c (offset + hlen + w.body_len) ≡ ok true
  pub receiver_accepts :
      20 ≤ hlen → not16 (fold_carry (segment_sum c.at (offset + (hlen + w.body_len)) offset)) ≡ 0
  pub src : word32 c.at (ip_at Ipv4.src) ≡ word32 b.at (ip_at Ipv4.dst)
  pub dst : word32 c.at (ip_at Ipv4.dst) ≡ word32 b.at (ip_at Ipv4.src)
  pub says : Behind hlen w → Says b offset hlen w c

-- A received TCP packet over IPv4 for which the buffer has room.
pub record IsReceived (b : Buf) (offset : ℕ) : Type 0 where
  pub bytes : IsBytes b.at
  pub version : b.at 0 / 16 ≡ 4
  pub header : header_length b ≡ offset
  pub long : 20 ≤ offset
  pub proto : b.at 9 ≡ 6
  pub room : offset + 60 ≤ b.size

read16 : (v x : ℕ) → v ≡ htons x % 2 ^ 16 → ntohs v ≡ x % 2 ^ 16
read16 v x e = ap ntohs (e ∙ omega (arith, ntohs-lt x)) ∙ ntohs-htons x

read32 : (v x : ℕ) → v ≡ htonl x % 2 ^ 32 → ntohl v ≡ x % 2 ^ 32
read32 v x e = ap ntohl (e ∙ omega (arith, ntohl-lt x)) ∙ ntohl-htonl x

module _ (b : Buf) (offset hlen : ℕ) (r : IsReceived b offset) (w : Wanted)
    (fits : offset + hlen + w.body_len ≤ b.size) (small : offset + hlen + w.body_len + 12 < 2 ^ 16)
    (c : Buf) (h : IsHeaded b offset hlen w c) where
  module _ (d : Buf) (s : IsSealed c offset (hlen + w.body_len) d) where
    keep : (j : ℕ) → (j < 10) ⊎ (11 < j) → (j < offset + 16) ⊎ (offset + 17 < j) → d.at j ≡ c.at j
    keep j lo hi = s.other j lo hi

    first : d.at 0 ≡ b.at 0
    first = keep 0 (omega arith) (omega arith) ∙ h.first

    packet : IsPacket d (offset + hlen + w.body_len) offset
    packet = record {
      bytes = s.bytes;
      version = rw first r.version;
      header = rw first r.header;
      long = r.long;
      inside = omega arith;
      fits = omega (arith, s.size, h.size);
      small = omega arith;
    }

    word32_kept :
        (p : ℕ) → 12 ≤ p → (p + 4 ≤ offset + 16) ⊎ (offset + 17 < p) → word32 d.at p ≡ word32 c.at p
    word32_kept p lo hi =
        word32-same d.at c.at p (λ i less. keep (p + i) (omega arith) (omega arith))

    word16_kept :
        (p : ℕ) → (p + 2 ≤ 10) ⊎ (11 < p) → p + 2 ≤ offset + 16 → word16 d.at p ≡ word16 c.at p
    word16_kept p lo hi =
        omega (arith, keep p (omega arith) (omega arith), keep (p + 1) (omega arith) (omega arith))

    Says-parts : Behind hlen w → Says b offset hlen w d
    Says-parts behind =
        let long = r.long in
        let k = h.fields behind in
        let tail =
          λ (k : ℕ) (less : k + 4 ≤ 16). word32_kept (offset + k) (omega arith) (omega arith) in
        let port =
          λ (k : ℕ) (less : k + 2 ≤ 16). word16_kept (offset + k) (omega arith) (omega arith) in
        record {
          src_port = word16_kept offset (omega arith) (omega arith) ∙ k.src_port;
          dst_port = port 2 (omega arith) ∙ k.dst_port;
          seq_num = read32 _ w.seq_num (tail 4 (omega arith) ∙ k.seq_num);
          ack_num = read32 _ w.ack_num (tail 8 (omega arith) ∙ k.ack_num);
          flags = keep (offset + 13) (omega arith) (omega arith) ∙ k.flags;
          window = read16 _ w.window (port 14 (omega arith) ∙ k.window);
          payload = λ enough j less.
              keep (offset + hlen + j) (omega arith) (omega arith) ∙ k.payload j less;
        }

    IsAnswer-parts : IsAnswer b offset hlen w d
    IsAnswer-parts =
        let long = r.long in
        record {
          size = s.size ∙ h.size;
          bytes = s.bytes;
          total =
              ap ntohs (word16_kept 2 (omega arith) (omega arith) ∙ h.total)
              ∙ ntohs-htons (offset + hlen + w.body_len)
              ∙ omega arith;
          ip_accepts = ip_validate-packet d _ offset packet s.header_sums;
          receiver_accepts = λ enough. s.segment_sums (omega arith);
          src = word32_kept 12 (omega arith) (omega arith) ∙ h.src;
          dst = word32_kept 16 (omega arith) (omega arith) ∙ h.dst;
          says = Says-parts;
        }

  -- For a received TCP packet with the wanted fields set, `seal` meets no fault and makes the
  -- answer that `IsAnswer` describes.
  pub seal-IsAnswer :
      (stack : ℕ → ℕ)
      → IsBytes stack
      → Returns (seal stack c offset offset (hlen + w.body_len)) (IsAnswer b offset hlen w)
  seal-IsAnswer stack stack_bytes =
      let long = r.long in
      let (d, run, s) =
        seal-IsSealed stack c offset (hlen + w.body_len) stack_bytes h.bytes long (omega arith)
          (omega (arith, h.size)) (omega (arith, h.size, r.room)) (omega arith)
          (h.proto ∙ r.proto) in
      (d, run, IsAnswer-parts d s)
