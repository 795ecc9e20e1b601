-- ===== src/Transport.antt =====
-- The TCP handler's data (refactor/network/tcp/tcp.h) and its checksum and initial sequence number
-- (refactor/network/tcp/tcp.c).
pub mod Sum
pub mod Verify
use lazy_tcp.Prelude.{ℕ, ◌+◌, ◌-◌, ◌*◌, ◌^◌, ◌%◌, Bool, Option}
use lazy_tcp.Prelude.{Run, ok, ◌>>=◌}
use lazy_tcp.Word.{u32, htons}
use lazy_tcp.Buf.{Buf, load8, load16, load32, store8, store16, store32, memcpy}
use lazy_tcp.Checksum.{checksum}
use lazy_tcp.Layout.{Ipv4, ip_at, Tcp, tcp_at, Pseudo, pseudo_at, sizeof_pseudo}
use lazy_tcp.Tcb.{Ptr}
use lazy_tcp.Vector.{Memory}

abbrev pub tcp_listen_port : ℕ
tcp_listen_port = 8080

abbrev pub fin_flag : ℕ
fin_flag = 0x01

abbrev pub syn_flag : ℕ
syn_flag = 0x02

abbrev pub rst_flag : ℕ
rst_flag = 0x04

abbrev pub psh_flag : ℕ
psh_flag = 0x08

abbrev pub ack_flag : ℕ
ack_flag = 0x10

pub record Flags : Type 0 where
  pub fin : Bool
  pub syn : Bool
  pub rst : Bool
  pub psh : Bool
  pub ack : Bool

-- What one packet's handling takes from outside: the clock, `rand`, the results of `malloc` and
-- `realloc`, and the values that stand in memory which the code does not set.
pub record Env : Type 0 where
  pub tv_sec : ℕ
  pub tv_usec : ℕ
  pub rand : ℕ
  pub tcb_mem : Option Ptr
  pub bucket_mem : ℕ → Memory
  pub grow_mem : Memory
  pub stack : ℕ → ℕ
  pub unset_seq_no : ℕ
  pub unset_ack_no : ℕ
  pub unset_pl_flags : ℕ

unfoldable pub tcp_gen_iss : Env → ℕ
tcp_gen_iss env = u32 (env.tv_sec * 1000000 + env.tv_usec + env.rand)

-- The checksum, and the buffer after it: the field is cleared for the copy and then restored.
unfoldable pub tcp_checksum : (stack : ℕ → ℕ) → Buf → (len offset : ℕ) → Run (ℕ × Buf)
tcp_checksum stack b len offset = do
  org_cs ← load16 b (offset + tcp_at Tcp.checksum)
  let seg_len = len - offset
  src ← load32 b (ip_at Ipv4.src)
  dst ← load32 b (ip_at Ipv4.dst)
  proto ← load8 b (ip_at Ipv4.proto)
  let pseudo : Buf = record { size = sizeof_pseudo; at = stack }
  p1 ← store32 pseudo (pseudo_at Pseudo.src) src
  p2 ← store32 p1 (pseudo_at Pseudo.dst) dst
  p3 ← store8 p2 (pseudo_at Pseudo.zero_byte) 0
  p4 ← store8 p3 (pseudo_at Pseudo.proto) proto
  p5 ← store16 p4 (pseudo_at Pseudo.tcp_len) (htons seg_len)
  b1 ← store16 b (offset + tcp_at Tcp.checksum) 0
  let ghost_seg : Buf = record { size = sizeof_pseudo + seg_len; at = stack }
  g1 ← memcpy ghost_seg 0 p5 0 sizeof_pseudo
  g2 ← memcpy g1 sizeof_pseudo b1 offset seg_len
  cs ← checksum g2 0 (sizeof_pseudo + seg_len)
  b2 ← store16 b1 (offset + tcp_at Tcp.checksum) org_cs
  ok (cs, b2)
