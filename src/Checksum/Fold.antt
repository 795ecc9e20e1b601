-- ===== src/Checksum/Fold.antt =====
-- The end-around carry: the fold is the value modulo 65535, in one's complement.
use mathlib.Core.WellFounded.{Acc}
use lazy_tcp.Prelude.{ℕ, ◌+◌, ◌/◌, ◌%◌, ◌^◌, ◌≤◌, ◌<◌, ◌≡◌, refl, arith, dite, dec_le, lt_wf}
use lazy_tcp.Word.{not16}
use lazy_tcp.Checksum.{fold_acc, fold_carry}

pub record IsFold (sum folded : ℕ) : Type 0 where
  pub small : folded < 2 ^ 16
  pub rest : folded % 65535 ≡ sum % 65535
  pub zero_only : folded ≡ 0 → sum ≡ 0
  pub zero_stays : sum ≡ 0 → folded ≡ 0

IsFold-step :
    (sum folded : ℕ)
    → 2 ^ 16 ≤ sum
    → IsFold (sum % 2 ^ 16 + sum / 2 ^ 16) folded
    → IsFold sum folded
IsFold-step sum folded big f = record {
  small = f.small;
  rest = omega (arith, f.rest);
  zero_only = λ e. omega (arith, f.zero_only e);
  zero_stays = λ e. omega arith;
}

fold_acc-IsFold : (sum : ℕ) (w : Acc ◌<◌ sum) → IsFold sum (fold_acc sum w)
unfolding fold_acc
fold_acc-IsFold sum (Acc.intro _ smaller) =
    elim (dec_le (2 ^ 16) sum)
      as (λ d. IsFold sum (
        dite d (λ h. fold_acc (sum % 2 ^ 16 + sum / 2 ^ 16) (smaller _ (omega arith)))
          (λ _. sum))) [
            | yes h ↦
                IsFold-step sum _ h
                  (fold_acc-IsFold (sum % 2 ^ 16 + sum / 2 ^ 16) (smaller _ (omega arith)))
            | no h ↦ record {
              small = omega arith;
              rest = refl;
              zero_only = λ e. e;
              zero_stays = λ e. e;
            }
          ]

-- The folding ends for every sum, with a 16-bit number that is the sum modulo 65535, and 0 exactly
-- for 0.
pub fold_carry-IsFold : (sum : ℕ) → IsFold sum (fold_carry sum)
unfolding fold_carry
fold_carry-IsFold sum = fold_acc-IsFold sum (lt_wf.apply sum)

-- Every sum to which the complement of its own folding is added folds to a complement of 0.
pub fold_carry-checked : (sum : ℕ) → not16 (fold_carry (sum + not16 (fold_carry sum))) ≡ 0
fold_carry-checked sum =
    let f = fold_carry-IsFold sum in
    let g = fold_carry-IsFold (sum + not16 (fold_carry sum)) in
    ground (arith, f.small, f.rest, f.zero_stays, g.small, g.rest, g.zero_only)
