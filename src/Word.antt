-- ===== src/Word.antt =====
-- Machine words of the target: casts, byte order, one's complement and sequence comparisons
-- (refactor/network/tcp/tcb.h, and the conversions that arpa/inet.h documents).
use lazy_tcp.Prelude.{ℕ, ◌+◌, ◌-◌, ◌*◌, ◌/◌, ◌%◌, ◌^◌, ◌<◌, ◌≡◌, arith}
use lazy_tcp.Prelude.{Bool, bit_and, not, ltb, leb, ◌==◌}

abbrev pub u8 : ℕ → ℕ
u8 n = n % 2 ^ 8

abbrev pub u16 : ℕ → ℕ
u16 n = n % 2 ^ 16

abbrev pub u32 : ℕ → ℕ
u32 n = n % 2 ^ 32

-- `(uint16_t) ~n`
abbrev pub not16 : ℕ → ℕ
not16 n = 2 ^ 16 - 1 - u16 n

-- `a - b` on `uint32_t`
abbrev pub sub32 : ℕ → ℕ → ℕ
sub32 a b = u32 (a + 2 ^ 32 - b)

-- The host is little-endian, so the conversions swap the bytes.
unfoldable pub ntohs : ℕ → ℕ
ntohs n = n % 2 ^ 8 * 2 ^ 8 + n / 2 ^ 8 % 2 ^ 8

abbrev pub htons : ℕ → ℕ
htons n = ntohs n

unfoldable pub ntohl : ℕ → ℕ
ntohl n =
    n % 2 ^ 8 * 2 ^ 24
    + n / 2 ^ 8 % 2 ^ 8 * 2 ^ 16
    + n / 2 ^ 16 % 2 ^ 8 * 2 ^ 8
    + n / 2 ^ 24 % 2 ^ 8

abbrev pub htonl : ℕ → ℕ
htonl n = ntohl n

pub ntohs-htons : (n : ℕ) → ntohs (htons n) ≡ n % 2 ^ 16
unfolding ntohs
ntohs-htons n = omega arith

pub ntohl-htonl : (n : ℕ) → ntohl (htonl n) ≡ n % 2 ^ 32
unfolding ntohl
ntohl-htonl n = omega arith

pub ntohs-lt : (n : ℕ) → ntohs n < 2 ^ 16
unfolding ntohs
ntohs-lt n = omega arith

pub ntohl-lt : (n : ℕ) → ntohl n < 2 ^ 32
unfolding ntohl
ntohl-lt n = omega arith

-- `flags & mask` as a truth value
abbrev pub has_bit : ℕ → ℕ → Bool
has_bit flags mask = not (bit_and flags mask == 0)

-- `SEQ_LT(a, b)`: the difference as an `int32_t` is negative.
unfoldable pub seq_lt : ℕ → ℕ → Bool
seq_lt a b = leb (2 ^ 31) (sub32 a b)

-- `SEQ_GEQ(a, b)`
unfoldable pub seq_geq : ℕ → ℕ → Bool
seq_geq a b = ltb (sub32 a b) (2 ^ 31)
