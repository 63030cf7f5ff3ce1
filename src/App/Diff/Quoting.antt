-- ===== src/App/Diff/Quoting.antt =====
-- `unquoteGitPath` undoes the quoting of git's core.quotePath, where no byte has an escape of its own
-- other than the backslash, the quote, the tab and the new line.
use myworktree.Prelude.{
  ℕ, suc, ◌+◌, ◌*◌, ◌/◌, ◌%◌, ◌<◌, ◌≡◌, ◌∙◌, refl, ap, Bool, false, ◌||◌, none, some, [], ◌∷◌, ◌++◌,
  ltb, leb, ◌==◌, if◌then◌else◌, length, arith, Bool-cases, inl, inr, ◌⊎◌, length-append,
  take-append, get_elem?-append,
}
use myworktree.Worktree.Porcelain.{Bytes}
use myworktree.App.Diff.{plain, escaped, octal, step, unescape, inner, unquote_git_path}

-- three octal digits behind a backslash
abbrev octal_escape : ℕ → Bytes
octal_escape c = 92 ∷ (48 + c / 64) ∷ (48 + c / 8 % 8) ∷ (48 + c % 8) ∷ []

-- git's quoting of one byte
unfoldable pub quote_byte : ℕ → Bytes
quote_byte c =
    if c == 34 || c == 92
    then 92 ∷ c ∷ []
    else if c == 9
    then 92 ∷ 116 ∷ []
    else if c == 10
    then 92 ∷ 110 ∷ []
    else if ltb c 32 || leb 127 c
    then octal_escape c
    else c ∷ []

unfoldable pub quote_bytes : Bytes → Bytes
quote_bytes [] = []
quote_bytes (c ∷ s) = quote_byte c ++ quote_bytes s

unfoldable pub quoted : Bytes → Bytes
quoted s = 34 ∷ quote_bytes s ++ (34 ∷ [])

-- whether git quotes the path
unfoldable pub needs_quotes : Bytes → Bool
needs_quotes [] = false
needs_quotes (c ∷ s) = c == 34 || c == 92 || ltb c 32 || leb 127 c || needs_quotes s

-- a path as git writes it
unfoldable pub git_quoted : Bytes → Bytes
unfolding quoted quote_bytes quote_byte needs_quotes
git_quoted s = if needs_quotes s then quoted s else s

-- Bytes below 256; those that git writes with a letter that the code does not read are left out:
-- 7, 8, 11, 12 and 13.
unfoldable pub Quotable : Bytes → Type 0
Quotable [] = Unit
Quotable (c ∷ s) = (c < 256) × ((c < 7) ⊎ (c ≡ 9) ⊎ (c ≡ 10) ⊎ (13 < c)) × Quotable s

-- After the third digit of an escape the loop stands as at the beginning.
unescape-octal : (val : ℕ) (s : Bytes) → unescape (octal val 0) s ≡ (val % 256) ∷ unescape plain s
unfolding unescape step
unescape-octal val [] = refl
unescape-octal val (c ∷ s) = ground arith

step-escaped_digit : (d : ℕ) → d < 8 → step escaped (48 + d) ≡ (octal d 2, [])
unfolding step
step-escaped_digit d h = ground arith

step-octal_digit :
    (val more d : ℕ) → d < 8 → step (octal val (suc more)) (48 + d) ≡ (octal (val * 8 + d) more, [])
unfolding step
step-octal_digit val more d h = ground arith

unescape-octal_escape :
    (c : ℕ) (s : Bytes) → c < 256 → unescape plain (octal_escape c ++ s) ≡ c ∷ unescape plain s
unfolding unescape step
unescape-octal_escape c s h =
    rw
      (
        step-escaped_digit (c / 64) (omega arith),
        step-octal_digit (c / 64) 1 (c / 8 % 8) (omega arith),
        step-octal_digit (c / 64 * 8 + c / 8 % 8) 0 (c % 8) (omega arith),
        unescape-octal ((c / 64 * 8 + c / 8 % 8) * 8 + c % 8) s,
      )
      (ap (λ n. n ∷ unescape plain s) (omega arith))

unescape-quote_byte :
    (c : ℕ) (s : Bytes) → c < 256 → unescape plain (quote_byte c ++ s) ≡ c ∷ unescape plain s
unfolding unescape step quote_byte
unescape-quote_byte c s h = elim (Bool-cases (ltb c 32 || leb 127 c)) [
  | inl e ↦ ground (arith, e, unescape-octal_escape c s h)
  | inr e ↦ ground (arith, e)
]

unescape-quote_bytes : (s : Bytes) → Quotable s → unescape plain (quote_bytes s) ≡ s
unfolding unescape quote_bytes Quotable
unescape-quote_bytes [] q = refl
unescape-quote_bytes (c ∷ s) (h, _, q) =
    unescape-quote_byte c (quote_bytes s) h ∙ ap (λ t. c ∷ t) (unescape-quote_bytes s q)

inner-quotes : (s : Bytes) → inner (34 ∷ s ++ (34 ∷ [])) ≡ some s
unfolding inner
inner-quotes s = ground (
  arith,
  length-append s (34 ∷ []),
  take-append s (34 ∷ []),
  get_elem?-append s (34 ∷ []) (length s),
)

inner-plain : (s : Bytes) → needs_quotes s ≡ false → inner s ≡ none
unfolding inner needs_quotes
inner-plain [] h = refl
inner-plain (c ∷ s) h = ground (arith, h)

-- A path comes back from git's form of it, quoted or not, if its bytes are below 256 and none of them is
-- one of the five control characters that git writes with a letter of its own.
pub unquote_git_path-git_quoted : (s : Bytes) → Quotable s → unquote_git_path (git_quoted s) ≡ s
unfolding unquote_git_path git_quoted quoted
unquote_git_path-git_quoted s q = elim (Bool-cases (needs_quotes s)) [
  | inl e ↦ ground (arith, e, inner-quotes (quote_bytes s), unescape-quote_bytes s q)
  | inr e ↦ ground (arith, e, inner-plain s e)
]
