-- ===== src/Worktree/Porcelain/Digits.antt =====
-- The bytes that `decimal` writes are digits.
use myworktree.Prelude.{
  ℕ, zero, suc, ◌+◌, ◌%◌, ◌/◌, ◌≤◌, [], ◌∷◌, ◌++◌, arith, ltb, Bool-cases, inl, inr,
}
use myworktree.Worktree.Porcelain.{Bytes, decimal, decimal_from}

unfoldable pub AllDigits : Bytes → Type 0
AllDigits [] = Unit
AllDigits (b ∷ bs) = (48 ≤ b) × AllDigits bs

AllDigits-append : (xs ys : Bytes) → AllDigits xs → AllDigits ys → AllDigits (xs ++ ys)
unfolding AllDigits
AllDigits-append [] ys h k = k
AllDigits-append (x ∷ xs) ys (h, hs) k = (h, AllDigits-append xs ys hs k)

decimal_from-AllDigits : (fuel n : ℕ) → AllDigits (decimal_from fuel n)
unfolding decimal_from AllDigits
decimal_from-AllDigits zero n = (omega arith, tt)
decimal_from-AllDigits (suc fuel) n = elim (Bool-cases (ltb n 10)) [
  | inl e ↦ rw e (omega arith, tt)
  | inr e ↦ rw e (
      AllDigits-append (decimal_from fuel (n / 10)) ((48 + n % 10) ∷ [])
        (decimal_from-AllDigits fuel (n / 10)) (omega arith, tt))
]

pub decimal-AllDigits : (n : ℕ) → AllDigits (decimal n)
unfolding decimal
decimal-AllDigits n = decimal_from-AllDigits n n
