-- ===== src/App/Tty/Smallest.antt =====
-- What the smallest of the viewers' sizes is, and that the code's loop finds it.
use myworktree.Prelude.{
  ℕ, ◌≤◌, ◌≡◌, ◌⊎◌, refl, ap, subst, Option, none, some, String, [], ◌∷◌, Assoc, arith, Bool-cases,
  ltb, if◌then◌else◌, inl, inr,
}
use myworktree.App.Tty.{merge, smaller, TtySize, TtyClientState, min_size}

-- What the smallest of the viewers' sizes is: without a size, no viewer has told one; with one, it is no wider
-- and no higher than any that was told, and some viewer has just its width, and some its height.
pub Silent : Assoc TtyClientState → Type 0
Silent [] = Unit
Silent ((name, client) ∷ rest) = (client.size ≡ none) × Silent rest

pub Fits : TtySize → Assoc TtyClientState → Type 0
Fits z [] = Unit
Fits z ((name, client) ∷ rest) =
    ((told : TtySize) → client.size ≡ some told → (z.cols ≤ told.cols) × (z.rows ≤ told.rows))
    × Fits z rest

-- some viewer's size has the measure, which is its width or its height
pub Told : (TtySize → ℕ) → ℕ → Assoc TtyClientState → Type 0
Told of n [] = ⊥
Told of n ((name, client) ∷ rest) =
    ((told : TtySize) × (client.size ≡ some told) × (of told ≡ n)) ⊎ Told of n rest

pub data IsSmallest (m : Assoc TtyClientState) : Option TtySize → Type 0 where
  no_size : Silent m → IsSmallest m none
  a_size :
      (z : TtySize)
      → Fits z m
      → Told (λ s. s.cols) z.cols m
      → Told (λ s. s.rows) z.rows m
      → IsSmallest m (some z)

Fits-trans :
    (y z : TtySize) (m : Assoc TtyClientState)
    → y.cols ≤ z.cols
    → y.rows ≤ z.rows
    → Fits z m
    → Fits y m
unfolding Fits
Fits-trans y z [] c r f = tt
Fits-trans y z ((name, client) ∷ rest) c r (f, g) = (
  λ told e. (omega (arith, c, (f told e).0), omega (arith, r, (f told e).1)),
  Fits-trans y z rest c r g,
)

Silent-Fits : (z : TtySize) (m : Assoc TtyClientState) → Silent m → Fits z m
unfolding Silent Fits
Silent-Fits z [] q = tt
Silent-Fits z ((name, client) ∷ rest) (e, q) =
    (λ told f. absurd (ground (arith, e, f)), Silent-Fits z rest q)

-- of two measures, the smaller one was told if both were
smaller-Told :
    (name : String) (client : TtyClientState) (rest : Assoc TtyClientState) (of : TtySize → ℕ)
    (y z : TtySize)
    → client.size ≡ some y
    → Told of (of z) rest
    → Told of (if ltb (of y) (of z) then of y else of z) ((name, client) ∷ rest)
unfolding Told
smaller-Told name client rest of y z e t = elim (Bool-cases (ltb (of y) (of z))) [
  | inl l ↦ inl (y, e, ground (arith, l))
  | inr l ↦ inr (subst (λ n. Told of n rest) (ground (arith, l)) t)
]

-- a viewer in front of those whose smallest size is known
merged-IsSmallest :
    (name : String) (client : TtyClientState) (rest : Assoc TtyClientState)
    (mine o : Option TtySize)
    → client.size ≡ mine
    → IsSmallest rest o
    → IsSmallest ((name, client) ∷ rest) (merge mine o)
unfolding Silent Fits Told
merged-IsSmallest name client rest none none e (no_size q) = no_size (e, q)
merged-IsSmallest name client rest none (some z) e (a_size _ f c r) =
    a_size z (λ told g. absurd (ground (arith, e, g)), f) (inr c) (inr r)
merged-IsSmallest name client rest (some y) none e (no_size q) =
    a_size y (λ told g. ground (arith, e, g), Silent-Fits y rest q) (inl (y, e, refl))
      (inl (y, e, refl))
merged-IsSmallest name client rest (some y) (some z) e (a_size _ f c r) =
    a_size (smaller y z)
      (
        λ told g. ground (arith, e, g),
        Fits-trans (smaller y z) z rest (ground arith) (ground arith) f,
      )
      (smaller-Told name client rest (λ s. s.cols) y z e c)
      (smaller-Told name client rest (λ s. s.rows) y z e r)

pub min_size-IsSmallest : (m : Assoc TtyClientState) → IsSmallest m (min_size m)
unfolding min_size Silent
min_size-IsSmallest [] = no_size tt
min_size-IsSmallest ((name, client) ∷ rest) =
    merged-IsSmallest name client rest client.size (min_size rest) refl (min_size-IsSmallest rest)

-- what was told is not smaller than a size that fits
Told-cols :
    (z : TtySize) (n : ℕ) (m : Assoc TtyClientState)
    → Fits z m
    → Told (λ s. s.cols) n m
    → z.cols ≤ n
unfolding Fits Told
Told-cols z n [] f t = elim t [ ]
Told-cols z n ((name, client) ∷ rest) (f, g) (inl (told, e, q)) = omega (arith, (f told e).0, q)
Told-cols z n ((name, client) ∷ rest) (f, g) (inr t) = Told-cols z n rest g t

Told-rows :
    (z : TtySize) (n : ℕ) (m : Assoc TtyClientState)
    → Fits z m
    → Told (λ s. s.rows) n m
    → z.rows ≤ n
unfolding Fits Told
Told-rows z n [] f t = elim t [ ]
Told-rows z n ((name, client) ∷ rest) (f, g) (inl (told, e, q)) = omega (arith, (f told e).1, q)
Told-rows z n ((name, client) ∷ rest) (f, g) (inr t) = Told-rows z n rest g t

Silent-untold : (of : TtySize → ℕ) (n : ℕ) (m : Assoc TtyClientState) → Silent m → Told of n m → ⊥
unfolding Silent Told
Silent-untold of n [] q t = elim t [ ]
Silent-untold of n ((name, client) ∷ rest) (s, q) (inl (told, e, _)) = ground (arith, s, e)
Silent-untold of n ((name, client) ∷ rest) (s, q) (inr t) = Silent-untold of n rest q t

pub IsSmallest-unique :
    (m : Assoc TtyClientState) (o p : Option TtySize) → IsSmallest m o → IsSmallest m p → o ≡ p
IsSmallest-unique m none none (no_size q) (no_size _) = refl
IsSmallest-unique m none (some z) (no_size q) (a_size _ f c r) =
    absurd (Silent-untold (λ s. s.cols) z.cols m q c)
IsSmallest-unique m (some y) none (a_size _ f c r) (no_size q) =
    absurd (Silent-untold (λ s. s.cols) y.cols m q c)
IsSmallest-unique m (some y) (some z) (a_size _ f c r) (a_size _ g d t) = ap some (
    same y z (omega (arith, Told-cols y z.cols m f d, Told-cols z y.cols m g c))
      (omega (arith, Told-rows y z.rows m f t, Told-rows z y.rows m g r)))
  where
    same : (y z : TtySize) → y.cols ≡ z.cols → y.rows ≡ z.rows → y ≡ z
    same y z e f = cc (e, f)
