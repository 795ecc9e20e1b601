-- ===== src/Buf/Access.antt =====
-- Accesses in bounds succeed, what a store changes, and that cells stay bytes.
use lazy_tcp.Prelude.{ℕ, ◌+◌, ◌-◌, ◌%◌, ◌^◌, ◌≤◌, ◌<◌, ◌≡◌, ◌⊎◌, arith, ok, le→leb}
use lazy_tcp.Buf.{
  Buf, IsBytes, word16, word32, put8, put16, put32, copy, with_bytes, load8, load16, load32, store8,
  store16, store32, memcpy,
}

module _ (b : Buf) (i : ℕ) where
  pub load8-ok : i + 1 ≤ b.size → load8 b i ≡ ok (b.at i)
  unfolding load8
  load8-ok h = rw (le→leb _ _ h)

  pub load16-ok : i + 2 ≤ b.size → load16 b i ≡ ok (word16 b.at i)
  unfolding load16
  load16-ok h = rw (le→leb _ _ h)

  pub load32-ok : i + 4 ≤ b.size → load32 b i ≡ ok (word32 b.at i)
  unfolding load32
  load32-ok h = rw (le→leb _ _ h)

  module _ (v : ℕ) where
    pub store8-ok : i + 1 ≤ b.size → store8 b i v ≡ ok (with_bytes b (put8 b.at i v))
    unfolding store8
    store8-ok h = rw (le→leb _ _ h)

    pub store16-ok : i + 2 ≤ b.size → store16 b i v ≡ ok (with_bytes b (put16 b.at i v))
    unfolding store16
    store16-ok h = rw (le→leb _ _ h)

    pub store32-ok : i + 4 ≤ b.size → store32 b i v ≡ ok (with_bytes b (put32 b.at i v))
    unfolding store32
    store32-ok h = rw (le→leb _ _ h)

pub memcpy-ok :
    (b : Buf) (d : ℕ) (c : Buf) (s n : ℕ)
    → d + n ≤ b.size
    → s + n ≤ c.size
    → memcpy b d c s n ≡ ok (with_bytes b (copy b.at d c.at s n))
unfolding memcpy
memcpy-ok b d c s n h k = rw (le→leb _ _ h, le→leb _ _ k)

module _ (f : ℕ → ℕ) where
  module _ (i v : ℕ) where
    pub put8-IsBytes : IsBytes f → IsBytes (put8 f i v)
    unfolding put8
    put8-IsBytes h j = ground (arith, h j)

    pub put16-IsBytes : IsBytes f → IsBytes (put16 f i v)
    unfolding put16
    put16-IsBytes h j = ground (arith, h j)

    pub put32-IsBytes : IsBytes f → IsBytes (put32 f i v)
    unfolding put32
    put32-IsBytes h j = ground (arith, h j)

    -- a store leaves the other cells alone
    pub put8-other : (j : ℕ) → (j < i) ⊎ (i < j) → put8 f i v j ≡ f j
    unfolding put8
    put8-other j h = ground arith

    pub put16-other : (j : ℕ) → (j < i) ⊎ (i + 1 < j) → put16 f i v j ≡ f j
    unfolding put16
    put16-other j h = ground arith

    pub put32-other : (j : ℕ) → (j < i) ⊎ (i + 3 < j) → put32 f i v j ≡ f j
    unfolding put32
    put32-other j h = ground arith

    -- what was stored is read back
    pub put8_self : put8 f i v i ≡ v % 2 ^ 8
    unfolding put8
    put8_self = ground arith

    pub word16-put16 : word16 (put16 f i v) i ≡ v % 2 ^ 16
    unfolding put16
    word16-put16 = ground arith

    pub word32-put32 : word32 (put32 f i v) i ≡ v % 2 ^ 32
    unfolding put32
    word32-put32 = ground arith

  pub copy-IsBytes :
      (d : ℕ) (g : ℕ → ℕ) (s n : ℕ) → IsBytes f → IsBytes g → IsBytes (copy f d g s n)
  unfolding copy
  copy-IsBytes d g s n h k j = ground (arith, h j, k (s + (j - d)))

-- Storing a word that was loaded copies its bytes.
pub put32-word32 :
    (f : ℕ → ℕ) (i : ℕ) (g : ℕ → ℕ) (k j : ℕ)
    → IsBytes g
    → put32 f i (word32 g k) j ≡ copy f i g k 4 j
unfolding put32 copy
put32-word32 f i g k j h = ground (arith, h k, h (k + 1), h (k + 2), h (k + 3))
