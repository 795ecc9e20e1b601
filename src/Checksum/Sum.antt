-- ===== src/Checksum/Sum.antt =====
-- The summing loop against a plain sum of little-endian words, with no wrap.
use lazy_tcp.Prelude.{ℕ, zero, suc, ◌+◌, ◌*◌, ◌^◌, ◌≤◌, ◌<◌, ◌≡◌, refl, arith, ok, ap, ◌∙◌, sym}
use native.Mathlib.Nat.{add-zero, zero-add}
use lazy_tcp.Word.{u32, not16}
use lazy_tcp.Buf.{Buf, IsBytes, word16, put16}
use lazy_tcp.Buf.Access.{load8-ok, load16-ok}
use lazy_tcp.Checksum.{sum_words, fold_carry, checksum}

-- the sum of the words of `len` bytes at `p`, an odd last byte taken as a word
unfoldable pub word_sum : (ℕ → ℕ) → ℕ → ℕ → ℕ
word_sum f p zero = 0
word_sum f p (suc zero) = f p
word_sum f p (suc (suc len)) = word16 f p + word_sum f (p + 2) len

pub word_sum-le : (f : ℕ → ℕ) (p len : ℕ) → IsBytes f → word_sum f p len ≤ 65535 * len
unfolding word_sum
word_sum-le f p zero h = omega arith
word_sum-le f p (suc zero) h = omega (arith, h p)
word_sum-le f p (suc (suc len)) h = omega (arith, h p, h (p + 1), word_sum-le f (p + 2) len h)

sum_words-ok :
    (b : Buf) (p len sum : ℕ)
    → p + len ≤ b.size
    → sum < 2 ^ 32
    → sum_words b p len sum ≡ ok (u32 (sum + word_sum b.at p len))
unfolding sum_words word_sum
sum_words-ok b p zero sum h s = ap ok (omega arith)
sum_words-ok b p (suc zero) sum h s = rw (load8-ok b p h)
sum_words-ok b p (suc (suc len)) sum h s = rw (load16-ok b p (omega arith)) (
    rw (sum_words-ok b (p + 2) len (u32 (sum + word16 b.at p)) (omega arith) (omega arith))
      (ap ok (omega arith)))

-- For bytes in bounds, and fewer than 2 ^ 16 of them, `checksum` is the complement of the folded
-- plain sum of the words.
pub checksum-ok :
    (b : Buf) (p len : ℕ)
    → IsBytes b.at
    → p + len ≤ b.size
    → len < 2 ^ 16
    → checksum b p len ≡ ok (not16 (fold_carry (word_sum b.at p len)))
unfolding checksum
checksum-ok b p len h fits small =
    let e : u32 (0 + word_sum b.at p len) ≡ word_sum b.at p len =
      omega (arith, word_sum-le b.at p len h) in
    rw (sum_words-ok b p len 0 fits (omega arith), e)

-- Equal bytes have equal sums, wherever they lie.
pub word_sum-congr :
    (f g : ℕ → ℕ) (p q len : ℕ)
    → ((j : ℕ) → j < len → f (p + j) ≡ g (q + j))
    → word_sum f p len ≡ word_sum g q len
unfolding word_sum
word_sum-congr f g p q zero h = refl
word_sum-congr f g p q (suc zero) h = simp add-zero at (h 0 (omega arith))
word_sum-congr f g p q (suc (suc len)) h =
    let here : f p ≡ g q = simp add-zero at (h 0 (omega arith)) in
    let rest =
      word_sum-congr f g (p + 2) (q + 2) len
        λ j less. ap f (omega arith) ∙ h (j + 2) (omega arith) ∙ ap g (omega arith) in
    omega (arith, here, h 1, rest)

pub word_sum-append :
    (f : ℕ → ℕ) (p k n : ℕ)
    → word_sum f p (2 * k + n) ≡ word_sum f p (2 * k) + word_sum f (p + 2 * k) n
unfolding word_sum
word_sum-append f p zero n = rw (zero-add n, add-zero p) (sym (zero-add _))
word_sum-append f p (suc k) n =
    let here : 2 * suc k + n ≡ suc (suc (2 * k + n)) = omega arith in
    let left : 2 * suc k ≡ suc (suc (2 * k)) = omega arith in
    let place : p + suc (suc (2 * k)) ≡ p + 2 + 2 * k = omega arith in
    rw (here, left, place) (omega (arith, word_sum-append f (p + 2) k n))

-- What a stored word does to the sum, at an even place.
pub word_sum-put16 :
    (f : ℕ → ℕ) (p k v len : ℕ)
    → 2 * k + 2 ≤ len
    → v < 2 ^ 16
    → word_sum (put16 f (p + 2 * k) v) p len + word16 f (p + 2 * k) ≡ word_sum f p len + v
unfolding word_sum put16
word_sum-put16 f p k v zero h s = absurd (omega arith)
word_sum-put16 f p k v (suc zero) h s = absurd (omega arith)
word_sum-put16 f p zero v (suc (suc len)) h s =
    let rest = word_sum-congr (put16 f (p + 0) v) f (p + 2) (p + 2) len λ j less. ground arith in
    ground (arith, rest)
word_sum-put16 f p (suc k) v (suc (suc len)) h s =
    let place : p + 2 * suc k ≡ p + 2 + 2 * k = omega arith in
    rw place (ground (arith, word_sum-put16 f (p + 2) k v len (omega arith) s))

-- The checksum of a region depends on the bytes of the region alone.
pub checksum-same :
    (b c : Buf) (p len : ℕ)
    → IsBytes b.at
    → IsBytes c.at
    → p + len ≤ b.size
    → c.size ≡ b.size
    → len < 2 ^ 16
    → ((j : ℕ) → p ≤ j → j < p + len → c.at j ≡ b.at j)
    → checksum c p len ≡ checksum b p len
checksum-same b c p len bytes bytes' fits size small same =
    let e = word_sum-congr c.at b.at p p len λ j less. same (p + j) (omega arith) (omega arith) in
    checksum-ok c p len bytes' (rw size fits) small
    ∙ ap (λ (s : ℕ). ok (not16 (fold_carry s))) e
    ∙ sym (checksum-ok b p len bytes fits small)
