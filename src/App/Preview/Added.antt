-- ===== src/App/Preview/Added.antt =====
-- A file that is shown as added can be read back from its lines.
use myworktree.Prelude.{
  ℕ, ◌≡◌, refl, sym, ap, ◌∙◌, Bool, true, false, not, List, [], ◌∷◌, ◌++◌, ◌==◌, if◌then◌else◌,
  Bool-cases, ==_iff, inl, inr,
}
use mathlib.Core.List.{append_assoc}
use myworktree.Worktree.Porcelain.{Bytes, split_lines}
use myworktree.App.Preview.{plus_lines, whole_lines, no_newline, ends_bare, added_lines}

-- A reader of the lines of a diff that only adds: it drops the plus in front of each line, stops at a line without one, and the line break
-- in front of a line that begins with a backslash.
unfoldable pub starts_marker : Bytes → Bool
starts_marker [] = false
starts_marker (b ∷ bs) = b == 92

unfoldable pub read_line : Bool → Bytes → Bytes
read_line start [] = []
read_line true (b ∷ bs) = let here = read_line false bs in if b == 43 then here else []
read_line false (b ∷ bs) =
    let next = read_line true bs in
    let here = read_line false bs in
    if b == 10 then (if starts_marker bs then [] else 10 ∷ next) else b ∷ here

marker_if : Bool → Bytes
marker_if bare = if bare then no_newline else []

-- the same lines, byte by byte: at the start of a line, or behind a byte of it
spelled : Bool → Bytes → Bytes
spelled true [] = []
spelled false [] = 10 ∷ no_newline
spelled start (b ∷ bs) =
    let next = spelled true bs in
    let here = spelled false bs in
    let line = if b == 10 then 10 ∷ next else b ∷ here in if start then 43 ∷ line else line

-- whether the last byte ends no line, where such a byte stands before
line_bare : Bytes → Bool
line_bare [] = true
line_bare (b ∷ bs) = ends_bare (b ∷ bs)

ends_bare-break : (b : ℕ) (bs : Bytes) → (b == 10) ≡ true → ends_bare (b ∷ bs) ≡ ends_bare bs
unfolding ends_bare
ends_bare-break b [] e = ap not e
ends_bare-break b (c ∷ bs) e = refl

ends_bare-line : (b : ℕ) (bs : Bytes) → (b == 10) ≡ false → ends_bare (b ∷ bs) ≡ line_bare bs
unfolding ends_bare line_bare
ends_bare-line b [] e = ap not e
ends_bare-line b (c ∷ bs) e = refl

plus_lines-whole :
    (b : ℕ) (l : Bytes) (ls : List Bytes) (t : Bytes)
    → plus_lines (whole_lines ((b ∷ l) ∷ ls)) ++ t
      ≡ 43 ∷ b ∷ (l ++ (10 ∷ (plus_lines (whole_lines ls) ++ t)))
unfolding plus_lines whole_lines
plus_lines-whole b l [] t = ap (λ x. 43 ∷ b ∷ x) (append_assoc l (10 ∷ []) t)
plus_lines-whole b l (m ∷ ls) t =
    ap (λ x. 43 ∷ b ∷ x) (append_assoc l (10 ∷ plus_lines (whole_lines (m ∷ ls))) t)

-- The lines of a text, with what is written for them.
record Spelled (bs : Bytes) : Type 0 where
  line : Bytes
  more : List Bytes
  split_up : split_lines bs ≡ line ∷ more
  behind :
      line ++ (10 ∷ (plus_lines (whole_lines more) ++ marker_if (line_bare bs))) ≡ spelled false bs
  from_start : plus_lines (whole_lines (line ∷ more)) ++ marker_if (ends_bare bs) ≡ spelled true bs

break-Spelled : (b : ℕ) (bs : Bytes) → (b == 10) ≡ true → Spelled bs → Spelled (b ∷ bs)
unfolding split_lines spelled line_bare plus_lines whole_lines
break-Spelled b bs e rest = record {
  line = [];
  more = rest.line ∷ rest.more;
  split_up = rw (e, rest.split_up) refl;
  behind = rw (e, ends_bare-break b bs e) (ap (λ x. 10 ∷ x) rest.from_start);
  from_start = rw (e, ends_bare-break b bs e) (ap (λ x. 43 ∷ 10 ∷ x) rest.from_start);
}

line-Spelled : (b : ℕ) (bs : Bytes) → (b == 10) ≡ false → Spelled bs → Spelled (b ∷ bs)
unfolding split_lines spelled line_bare
line-Spelled b bs e rest = record {
  line = b ∷ rest.line;
  more = rest.more;
  split_up = rw (e, rest.split_up) refl;
  behind = rw (e, ends_bare-line b bs e) (ap (λ x. b ∷ x) rest.behind);
  from_start =
      rw (e, ends_bare-line b bs e)
        (plus_lines-whole b rest.line rest.more (marker_if (line_bare bs))
          ∙ ap (λ x. 43 ∷ b ∷ x) rest.behind);
}

all-Spelled : (bs : Bytes) → Spelled bs
unfolding split_lines spelled line_bare ends_bare plus_lines whole_lines marker_if
all-Spelled [] = record { line = []; more = []; split_up = refl; behind = refl; from_start = refl }
all-Spelled (b ∷ bs) = elim (Bool-cases (b == 10)) [
  | inl e ↦ break-Spelled b bs e (all-Spelled bs)
  | inr e ↦ line-Spelled b bs e (all-Spelled bs)
]

added_lines-spelled : (bs : Bytes) → added_lines bs ≡ spelled true bs
unfolding added_lines marker_if
added_lines-spelled bs = let lines = all-Spelled bs in rw lines.split_up lines.from_start

spelled_unmarked : (bs : Bytes) → starts_marker (spelled true bs) ≡ false
unfolding starts_marker spelled
spelled_unmarked [] = refl
spelled_unmarked (b ∷ bs) = refl

read_line-break :
    (bs : Bytes) → starts_marker bs ≡ false → read_line false (10 ∷ bs) ≡ 10 ∷ read_line true bs
unfolding read_line
read_line-break bs e = rw e refl

read_line-byte :
    (b : ℕ) (bs : Bytes) → (b == 10) ≡ false → read_line false (b ∷ bs) ≡ b ∷ read_line false bs
unfolding read_line
read_line-byte b bs e = rw e refl

read_line-line :
    (b : ℕ) (bs : Bytes)
    → read_line true (spelled true bs) ≡ bs
    → read_line false (spelled false bs) ≡ bs
    → read_line false (if b == 10 then 10 ∷ spelled true bs else b ∷ spelled false bs) ≡ b ∷ bs
read_line-line b bs next here = elim (Bool-cases (b == 10)) [
  | inl e ↦ rw e (
      read_line-break (spelled true bs) (spelled_unmarked bs)
      ∙ ap (λ x. 10 ∷ x) next
      ∙ ap (λ x. x ∷ bs) (sym ((==_iff b 10).0 e)))
  | inr e ↦ rw e (read_line-byte b (spelled false bs) e ∙ ap (λ x. b ∷ x) here)
]

read_line-spelled :
    (bs : Bytes)
    → (read_line true (spelled true bs) ≡ bs) × (read_line false (spelled false bs) ≡ bs)
unfolding read_line spelled starts_marker
read_line-spelled [] = (refl, refl)
read_line-spelled (b ∷ bs) =
    let (next, here) = read_line-spelled bs in
    let whole = read_line-line b bs next here in (whole, whole)

-- A text file that is shown as a file that is added can be read back from the lines that follow the header,
-- with the line break at its end or without one.
pub read_line-added_lines : (bs : Bytes) → read_line true (added_lines bs) ≡ bs
read_line-added_lines bs = ap (read_line true) (added_lines-spelled bs) ∙ (read_line-spelled bs).0
