-- ===== src/Checksum/Stamp.antt =====
-- The idiom of `ip_checksum` and `icmp_checksum`: clear the field, sum the region, store the sum.
use lazy_tcp.Prelude.{
  ℕ, ◌+◌, ◌*◌, ◌^◌, ◌≤◌, ◌<◌, ◌≡◌, ◌⊎◌, refl, arith, ok, Run, ◌>>=◌, Returns, ◌∙◌, ap,
}
use lazy_tcp.Word.{not16}
use lazy_tcp.Buf.{Buf, IsBytes, word16, put16, with_bytes, store16}
use lazy_tcp.Buf.Access.{store16-ok, put16-IsBytes, put16-other, word16-put16}
use lazy_tcp.Checksum.{fold_carry, checksum}
use lazy_tcp.Checksum.Fold.{fold_carry-checked}
use lazy_tcp.Checksum.Sum.{word_sum, word_sum-put16, checksum-ok}

abbrev pub stamp : Buf → ℕ → ℕ → ℕ → Run Buf
stamp b p field len = do
  cleared ← store16 b field 0
  sum ← checksum cleared p len
  store16 cleared field sum

-- `c` is `b` but for the field, and the region `p .. p + len` now sums to 0.
pub record IsStamped (b : Buf) (p field len : ℕ) (c : Buf) : Type 0 where
  pub size : c.size ≡ b.size
  pub bytes : IsBytes c.at
  pub sums : checksum c p len ≡ ok 0
  pub other : (j : ℕ) → (j < field) ⊎ (field + 1 < j) → c.at j ≡ b.at j

-- A sum that is stored in its own cleared field makes the region sum to 0.
sum_in_field :
    (f : ℕ → ℕ) (p k len : ℕ)
    → 2 * k + 2 ≤ len
    → word16 f (p + 2 * k) ≡ 0
    → let sum = not16 (fold_carry (word_sum f p len)) in
      not16 (fold_carry (word_sum (put16 f (p + 2 * k) sum) p len)) ≡ 0
sum_in_field f p k len inside clear =
    let s = not16 (fold_carry (word_sum f p len)) in
    let e : word_sum (put16 f (p + 2 * k) s) p len ≡ word_sum f p len + s =
      omega (arith, clear, word_sum-put16 f p k s len inside (omega arith)) in
    rw e (fold_carry-checked (word_sum f p len))

pub stamp-IsStamped :
    (b : Buf) (p k len : ℕ)
    → IsBytes b.at
    → p + len ≤ b.size
    → len < 2 ^ 16
    → 2 * k + 2 ≤ len
    → Returns (stamp b p (p + 2 * k) len) (IsStamped b p (p + 2 * k) len)
stamp-IsStamped b p k len bytes fits small inside =
    let f = put16 b.at (p + 2 * k) 0 in
    let f_bytes = put16-IsBytes b.at (p + 2 * k) 0 bytes in
    let s = not16 (fold_carry (word_sum f p len)) in
    let g = put16 f (p + 2 * k) s in
    let g_bytes = put16-IsBytes f (p + 2 * k) s f_bytes in
    (
      with_bytes b g,
      rw (
        store16-ok b (p + 2 * k) 0 (omega arith),
        checksum-ok (with_bytes b f) p len f_bytes fits small,
        store16-ok (with_bytes b f) (p + 2 * k) s (omega arith),
      ),
      record {
        size = refl;
        bytes = g_bytes;
        sums =
            checksum-ok (with_bytes b g) p len g_bytes fits small
            ∙ ap ok (sum_in_field f p k len inside (word16-put16 b.at (p + 2 * k) 0));
        other = λ j h. put16-other f (p + 2 * k) s j h ∙ put16-other b.at (p + 2 * k) 0 j h;
      },
    )
