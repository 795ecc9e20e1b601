-- ===== src/Legacy/Http/Text.antt =====
-- Texts as bytes: the printed length reads back, and the prefix test.
use lazy_tcp.Prelude.{
  ℕ, zero, suc, ◌+◌, ◌-◌, ◌*◌, ◌/◌, ◌%◌, ◌≤◌, ◌<◌, ◌≡◌, refl, arith, Bool, true, ◌&&◌, List, [],
  ◌∷◌, ◌++◌, inl, inr, ltb, ◌==◌, ok, Bool-cases,
}
use lazy_tcp.Buf.{Buf}
use lazy_tcp.Buf.Access.{load8-ok}
use lazy_tcp.Legacy.Http.{codes, length, byte_of, digits, decimal, response_headers, has_prefix}

-- the number that decimal digits stand for, behind those of `n`
abbrev pub parse : (n : ℕ) → List ℕ → ℕ
parse n [] = n
parse n (c ∷ cs) = parse (n * 10 + (c - b'0')) cs

abbrev pub pow10 : ℕ → ℕ
pow10 zero = 1
pow10 (suc places) = 10 * pow10 places

parse-digits :
    (places n : ℕ) (rest : List ℕ)
    → n < pow10 places
    → 0 < places
    → parse 0 (digits places n rest) ≡ parse n rest
unfolding digits
parse-digits zero n rest h more = absurd (omega arith)
parse-digits (suc zero) n rest h more = ground arith
parse-digits (suc (suc places)) n rest h more =
    let whole : n / 10 * 10 + (b'0' + n % 10 - b'0') ≡ n = omega arith in
    ground (
      arith,
      whole,
      parse-digits (suc places) (n / 10) ((b'0' + n % 10) ∷ rest) (omega arith) (omega arith),
    )

-- The decimal digits of every number below 10 ^ 19 read back as the number.
pub parse-decimal : (n : ℕ) → n < pow10 19 → parse 0 (decimal n) ≡ n
unfolding decimal
parse-decimal n h = parse-digits 19 n [] h (omega arith)

-- a text of bytes
abbrev pub all_bytes : List ℕ → Bool
all_bytes [] = true
all_bytes (c ∷ cs) = ltb c 256 && all_bytes cs

pub byte_of-lt : (cs : List ℕ) (i : ℕ) → all_bytes cs ≡ true → byte_of cs i < 256
unfolding byte_of
byte_of-lt [] i h = omega arith
byte_of-lt (c ∷ cs) zero h = ground arith
byte_of-lt (c ∷ cs) (suc i) h = byte_of-lt cs i (ground arith)

all_bytes-append :
    (xs ys : List ℕ) → all_bytes xs ≡ true → all_bytes ys ≡ true → all_bytes (xs ++ ys) ≡ true
all_bytes-append [] ys h k = k
all_bytes-append (x ∷ xs) ys h k = ground (arith, all_bytes-append xs ys)

all_bytes-digits :
    (places n : ℕ) (rest : List ℕ) → all_bytes rest ≡ true → all_bytes (digits places n rest) ≡ true
unfolding digits
all_bytes-digits zero n rest h = h
all_bytes-digits (suc places) n rest h =
    let more : all_bytes ((b'0' + n % 10) ∷ rest) ≡ true = ground arith in
    ground (arith, more, all_bytes-digits places (n / 10) ((b'0' + n % 10) ∷ rest) more)

pub all_bytes-response_headers : (n : ℕ) → all_bytes (response_headers n) ≡ true
unfolding response_headers decimal
all_bytes-response_headers n =
    let end = codes "\r\nConnection: close\r\n\r\n" in
    all_bytes-append (codes "HTTP/1.1 200 OK\r\nContent-Type: text/html\r\nContent-Length: ")
      (digits 19 n [] ++ end) refl
      (all_bytes-append (digits 19 n []) end (all_bytes-digits 19 n [] refl) refl)

-- the bytes at `p` begin with a text
abbrev pub begins : List ℕ → (ℕ → ℕ) → ℕ → Bool
begins [] f p = true
begins (c ∷ cs) f p = (f p == c) && begins cs f (p + 1)

-- In bounds the prefix test decides whether the bytes begin with the text.
pub has_prefix-begins :
    (cs : List ℕ) (b : Buf) (p : ℕ)
    → p + length cs ≤ b.size
    → has_prefix cs b p ≡ ok (begins cs b.at p)
unfolding has_prefix length
has_prefix-begins [] b p h = refl
has_prefix-begins (c ∷ cs) b p h = elim (Bool-cases (b.at p == c)) [
  | inl same ↦ rw (load8-ok b p (omega arith), same) (has_prefix-begins cs b (p + 1) (omega arith))
  | inr other ↦ rw (load8-ok b p (omega arith), other)
]
