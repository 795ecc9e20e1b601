-- ===== src/Buf.antt =====
-- The packet buffer as the code sees it through its packed structures: bytes at offsets, read and
-- written as little-endian words. An access that leaves the buffer is a fault.
pub mod Access
use lazy_tcp.Prelude.{ℕ, ◌+◌, ◌-◌, ◌*◌, ◌/◌, ◌%◌, ◌^◌, ◌≤◌, ◌<◌, ◌≡◌, ◌&&◌}
use lazy_tcp.Prelude.{ltb, leb, ◌==◌, if◌then◌else◌, Run, ok, fault}
use lazy_tcp.Word.{u8}

pub record Buf : Type 0 where
  pub size : ℕ
  pub at : ℕ → ℕ

-- Every cell holds a byte.
abbrev pub IsBytes : (ℕ → ℕ) → Type 0
IsBytes f = (i : ℕ) → f i < 256

abbrev pub update : (ℕ → ℕ) → ℕ → ℕ → ℕ → ℕ
update f i v j = if j == i then v else f j

abbrev pub word16 : (ℕ → ℕ) → ℕ → ℕ
word16 f i = f i + 2 ^ 8 * f (i + 1)

abbrev pub word32 : (ℕ → ℕ) → ℕ → ℕ
word32 f i = f i + 2 ^ 8 * f (i + 1) + 2 ^ 16 * f (i + 2) + 2 ^ 24 * f (i + 3)

unfoldable pub put8 : (ℕ → ℕ) → ℕ → ℕ → ℕ → ℕ
put8 f i v = update f i (u8 v)

unfoldable pub put16 : (ℕ → ℕ) → ℕ → ℕ → ℕ → ℕ
put16 f i v = update (update f i (u8 v)) (i + 1) (u8 (v / 2 ^ 8))

unfoldable pub put32 : (ℕ → ℕ) → ℕ → ℕ → ℕ → ℕ
put32 f i v =
    update (update (update (update f i (u8 v)) (i + 1) (u8 (v / 2 ^ 8))) (i + 2) (u8 (v / 2 ^ 16)))
      (i + 3) (u8 (v / 2 ^ 24))

unfoldable pub copy : (ℕ → ℕ) → ℕ → (ℕ → ℕ) → ℕ → ℕ → ℕ → ℕ
copy f d g s n j = if leb d j && ltb j (d + n) then g (s + (j - d)) else f j

abbrev pub with_bytes : Buf → (ℕ → ℕ) → Buf
with_bytes b f = record b { at = f }

-- `n` bytes at `i` lie inside
abbrev pub checked {ℓ} : {A : Type ℓ} → Buf → ℕ → ℕ → A → Run A
checked b i n a = if leb (i + n) b.size then ok a else fault

unfoldable pub load8 : Buf → ℕ → Run ℕ
load8 b i = checked b i 1 (b.at i)

unfoldable pub load16 : Buf → ℕ → Run ℕ
load16 b i = checked b i 2 (word16 b.at i)

unfoldable pub load32 : Buf → ℕ → Run ℕ
load32 b i = checked b i 4 (word32 b.at i)

unfoldable pub store8 : Buf → ℕ → ℕ → Run Buf
store8 b i v = checked b i 1 (with_bytes b (put8 b.at i v))

unfoldable pub store16 : Buf → ℕ → ℕ → Run Buf
store16 b i v = checked b i 2 (with_bytes b (put16 b.at i v))

unfoldable pub store32 : Buf → ℕ → ℕ → Run Buf
store32 b i v = checked b i 4 (with_bytes b (put32 b.at i v))

-- `memcpy(b + d, c + s, n)`, between buffers that do not overlap
unfoldable pub memcpy : Buf → ℕ → Buf → ℕ → ℕ → Run Buf
memcpy b d c s n =
    if leb (d + n) b.size && leb (s + n) c.size
    then ok (with_bytes b (copy b.at d c.at s n))
    else fault
