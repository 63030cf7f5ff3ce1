-- ===== src/Prelude/Maps.antt =====
-- Go's maps with string keys as association lists. The code never depends on a map's order.
use mathlib.Core.Path.{◌≡◌, refl}
use mathlib.Core.Option.{Option, none, some}
use mathlib.Core.List.{List, [], ◌∷◌}
use native.Mathlib.Omega.{arith}
use Prim.Native.Nat.{◌+◌, ◌≤◌}
use Prim.Native.String.{String}
use text.Mathlib.Text.{◌==◌ as str_eq}
use text.Mathlib.TextEquality.{eq_iff}
use myworktree.Prelude.Tests.{if◌then◌else◌, Option-cases}
use mathlib.Core.Logic.{inl, inr}
use myworktree.Prelude.Lists.{length}

abbrev pub Assoc {ℓ} : Type ℓ → Type ℓ
Assoc V = List (String × V)

module _ {ℓ} {V : Type ℓ} where
  -- `m[key]`
  unfoldable pub lookup : String → Assoc V → Option V
  lookup key [] = none
  lookup key ((name, x) ∷ rest) = if str_eq name key then some x else lookup key rest

  -- `delete(m, key)`
  unfoldable pub remove : String → Assoc V → Assoc V
  remove key [] = []
  remove key ((name, x) ∷ rest) =
      let kept = remove key rest in if str_eq name key then kept else (name, x) ∷ kept

  pub length-remove : (key : String) (m : Assoc V) → length (remove key m) ≤ length m
  unfolding remove
  length-remove key [] = omega arith
  length-remove key ((name, x) ∷ rest) = ground (arith, length-remove key rest)

  pub lookup-remove :
      (key other : String) (m : Assoc V)
      → lookup other (remove key m) ≡ (if str_eq key other then none else lookup other m)
  unfolding lookup remove
  lookup-remove key other [] = ground arith
  lookup-remove key other ((name, x) ∷ rest) =
      ground
        (arith, lookup-remove key other rest, eq_iff name key, eq_iff name other, eq_iff key other)

  -- `m[key] = x`
  unfoldable pub insert : String → V → Assoc V → Assoc V
  insert key x [] = (key, x) ∷ []
  insert key x ((name, y) ∷ rest) =
      if str_eq name key then (key, x) ∷ rest else (name, y) ∷ insert key x rest

  pub length-insert : (key : String) (x : V) (m : Assoc V) → length (insert key x m) ≤ length m + 1
  unfolding insert
  length-insert key x [] = omega arith
  length-insert key x ((name, y) ∷ rest) = ground (arith, length-insert key x rest)

  pub lookup-insert :
      (key other : String) (x : V) (m : Assoc V)
      → lookup other (insert key x m) ≡ (if str_eq key other then some x else lookup other m)
  unfolding lookup insert
  lookup-insert key other x [] = refl
  lookup-insert key other x ((name, y) ∷ rest) =
      ground (
        arith,
        lookup-insert key other x rest,
        eq_iff name key,
        eq_iff name other,
        eq_iff key other,
      )

  -- A loop over a map that changes or deletes the value of each key.
  unfoldable pub adjust : (V → Option V) → Assoc V → Assoc V
  adjust f [] = []
  adjust f ((name, x) ∷ rest) =
      let kept = adjust f rest in elim (f x) [ none ↦ remove name kept | some y ↦ (name, y) ∷ kept ]

  pub lookup-adjust :
      (key : String) (f : V → Option V) (m : Assoc V)
      → lookup key (adjust f m) ≡ elim (lookup key m) [ none ↦ none | some x ↦ f x ]
  unfolding lookup adjust
  lookup-adjust key f [] = refl
  lookup-adjust key f ((name, x) ∷ rest) = elim (Option-cases (f x)) [
    | inl e ↦ ground (
      arith,
      e,
      lookup-adjust key f rest,
      lookup-remove name key (adjust f rest),
      eq_iff name key,
    )
    | inr (y, e) ↦ ground (arith, e, lookup-adjust key f rest, eq_iff name key)
  ]
