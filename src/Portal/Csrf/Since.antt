-- ===== src/Portal/Csrf/Since.antt =====
-- The times that a window still counts, in longer lists and at later times.
use myworktree.Prelude.{ℕ, ◌≤◌, ◌≡◌, refl, ap, List, [], ◌∷◌, ◌++◌, arith, length}
use myworktree.Portal.Csrf.{minute, since}

pub since-append :
    (span now : ℕ) (xs ys : List ℕ)
    → since span now (xs ++ ys) ≡ since span now xs ++ since span now ys
unfolding since
since-append span now [] ys = refl
since-append span now (x ∷ xs) ys = ground (arith, since-append span now xs ys)

-- what a longer span or an earlier time has let through loses nothing that is still wanted
pub since-since :
    (small span now later : ℕ) (ts : List ℕ)
    → small ≤ span
    → now ≤ later
    → since small later (since span now ts) ≡ since small later ts
unfolding since
since-since small span now later [] h le = refl
since-since small span now later (t ∷ ts) h le =
    ground (arith, since-since small span now later ts h le)

pub length-since_later :
    (span now later : ℕ) (ts : List ℕ)
    → now ≤ later
    → length (since span later ts) ≤ length (since span now ts)
unfolding since
length-since_later span now later [] le = omega arith
length-since_later span now later (t ∷ ts) le =
    ground (arith, length-since_later span now later ts le)

pub since_self : (now : ℕ) → since minute now (now ∷ []) ≡ now ∷ []
unfolding since
since_self now = ground arith

pub append-cons : (xs ys : List ℕ) (x : ℕ) → (xs ++ (x ∷ [])) ++ ys ≡ xs ++ (x ∷ ys)
append-cons [] ys x = refl
append-cons (z ∷ zs) ys x = ap (λ l. z ∷ l) (append-cons zs ys x)

pub append-nil : (xs : List ℕ) → xs ++ [] ≡ xs
append-nil [] = refl
append-nil (z ∷ zs) = ap (λ l. z ∷ l) (append-nil zs)
