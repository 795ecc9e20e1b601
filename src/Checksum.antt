-- ===== src/Checksum.antt =====
-- The Internet checksum (refactor/network/network.c).
pub mod Stamp
pub mod Sum
pub mod Fold
use mathlib.Core.WellFounded.{Acc}
use lazy_tcp.Prelude.{ℕ, zero, suc, ◌+◌, ◌/◌, ◌%◌, ◌^◌, ◌<◌, arith, dite, dec_le, lt_wf}
use lazy_tcp.Prelude.{Run, ok, fault, ◌>>=◌}
use lazy_tcp.Word.{u32, not16}
use lazy_tcp.Buf.{Buf, load8, load16}

-- `while (len > 1) { sum += *ptr++; len -= 2; }`, then the leftover byte
unfoldable pub sum_words : Buf → ℕ → ℕ → ℕ → Run ℕ
sum_words b ptr zero sum = ok sum
sum_words b ptr (suc zero) sum = do x ← load8 b ptr; ok (u32 (sum + x))
sum_words b ptr (suc (suc len)) sum = do w ← load16 b ptr; sum_words b (ptr + 2) len (u32 (sum + w))

-- `while (sum >> 16) sum = (sum & 0xFFFF) + (sum >> 16);`
fold_acc : (sum : ℕ) → Acc ◌<◌ sum → ℕ
fold_acc sum (Acc.intro _ smaller) =
    dite (dec_le (2 ^ 16) sum)
      (λ h. fold_acc (sum % 2 ^ 16 + sum / 2 ^ 16) (smaller _ (omega arith))) (λ _. sum)

unfoldable pub fold_carry : ℕ → ℕ
unfolding fold_acc lt_wf dec_le
fold_carry sum = fold_acc sum (lt_wf.apply sum)

-- the checksum of `len` bytes at offset `ptr`
unfoldable pub checksum : Buf → ℕ → ℕ → Run ℕ
checksum b ptr len = do sum ← sum_words b ptr len 0; ok (not16 (fold_carry sum))
