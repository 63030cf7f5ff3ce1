-- ===== src/Version/Ordered.antt =====
-- `versionLess` against the order of versions on their numbers.
use myworktree.Prelude.{
  ℕ, ◌<◌, ◌↔◌, ◌==◌, str_append, all_codes, ◌≡◌, refl, true, not, some, String, pos, arith, ◌⊎◌,
  inl, inr, Bool-cases,
}
use Prim.Native.Char.{Char, code}
use text.Mathlib.TextLemmas.{nil-append, cons-append}
use myworktree.Git.Text.{atoi}
use myworktree.Version.{cut_dot, numbers, Core, core_less, less_of, split_version, version_less}

-- The order of versions on their numbers: the first that differs decides.
pub Lex : ℕ × ℕ × ℕ → ℕ × ℕ × ℕ → Type 0
Lex (a, b, c) (d, e, f) = (a < d) ⊎ (a ≡ d) × ((b < e) ⊎ (b ≡ e) × (c < f))

pub core_of : ℕ × ℕ × ℕ → Core
core_of (a, b, c) = record { major = pos a; minor = pos b; patch = pos c }

Lex-less : (u v : ℕ × ℕ × ℕ) → Lex u v → core_less (core_of u) (core_of v) ≡ true
unfolding core_less core_of Lex
Lex-less (a, b, c) (d, e, f) (inl l) = ground (arith, l)
Lex-less (a, b, c) (d, e, f) (inr (p, inl l)) = ground (arith, p, l)
Lex-less (a, b, c) (d, e, f) (inr (p, inr (q, l))) = ground (arith, p, q, l)

less-Lex : (u v : ℕ × ℕ × ℕ) → core_less (core_of u) (core_of v) ≡ true → Lex u v
unfolding core_less core_of Lex
less-Lex (a, b, c) (d, e, f) h = elim (Bool-cases (a == d)) [
  | inr n ↦ inl (ground (arith, h, n))
  | inl y ↦ elim (Bool-cases (b == e)) [
    | inr n ↦ inr (ground (arith, y), inl (ground (arith, h, y, n)))
    | inl z ↦ inr (ground (arith, y), inr (ground (arith, z), ground (arith, h, y, z)))
  ]
]

-- A text whose parts between two dots are these: the first two hold no dot, and `Atoi` reads the numbers.
unfoldable pub Reads : String → ℕ × ℕ × ℕ → Type 0
Reads v (a, b, c) =
    (s : String) × (t : String) × (u : String) × (v
      ≡ str_append s (str_append "." (str_append t (str_append "." u))))
    × (all_codes (λ k. not (k == 46)) s ≡ true)
    × (all_codes (λ k. not (k == 46)) t ≡ true)
    × (atoi s ≡ some (pos a))
    × (atoi t ≡ some (pos b))
    × (atoi u ≡ some (pos c))

one_dot :
    (c : Char) (rest : String)
    → (code c == 46) ≡ true
    → cut_dot (str_append (String.◌∷◌ c String.[]) rest) ≡ some ("", rest)
unfolding cut_dot
one_dot c rest e = rw (cons-append c String.[] rest, nil-append rest, e) refl

cut_dot-dot : (rest : String) → cut_dot (str_append "." rest) ≡ some ("", rest)
unfolding cut_dot
cut_dot-dot rest = one_dot _ rest refl

cut_dot-append :
    (s rest : String)
    → all_codes (λ k. not (k == 46)) s ≡ true
    → cut_dot (str_append s (str_append "." rest)) ≡ some (s, rest)
unfolding cut_dot all_codes
cut_dot-append String.[] rest h = rw (nil-append (str_append "." rest)) (cut_dot-dot rest)
cut_dot-append (String.◌∷◌ c s) rest h =
    rw (cons-append c s (str_append "." rest)) ground (arith, cut_dot-append s rest, h)

split_version-Reads : (v : String) (n : ℕ × ℕ × ℕ) → Reads v n → split_version v ≡ some (core_of n)
unfolding split_version core_of Reads numbers
split_version-Reads v (a, b, c) (s, t, u, e, p, q, x, y, z) =
    let first = cut_dot-append s (str_append t (str_append "." u)) p in
    let second = cut_dot-append t u q in rw e (ground (arith, first, second, x, y, z))

-- Of two versions that are three numbers between dots, versionLess says that the first is less exactly if the
-- first of the numbers in which they differ is less in it.
pub version_less-Lex :
    (v w : String) (m n : ℕ × ℕ × ℕ) → Reads v m → Reads w n → (version_less v w ≡ true) ↔ Lex m n
unfolding version_less less_of
version_less-Lex v w m n r q =
    rw (split_version-Reads v m r, split_version-Reads w n q) (less-Lex m n, Lex-less m n)
