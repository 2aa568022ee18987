-- ===== src/Base/Text/Lines.antt =====
-- Rows joined by newlines, and read back.
use Prim.Native.Nat.{ℕ}
use mathlib.Core.Path.{◌≡◌, refl, ap, ◌∙◌}
use mathlib.Core.Logic.{◌≢◌}
use mathlib.Core.Bool.{false}
use mathlib.Core.List.{List, [], ◌∷◌, ◌++◌}
use native.Mathlib.Omega.{arith}
use basiccoin.Base.Eq.{nat_eq}
use basiccoin.Base.Lists.{All}
use basiccoin.Base.Text.{
  newline, join, split, trim_left, drop_blank, trim_right, trim, IsInLine, IsRow,
}

-- A text that does not end in a newline and is not empty.
IsTrimmed : List ℕ → Type 0
IsTrimmed text = (text ≢ []) × (trim_right text ≡ text)

cons-IsTrimmed : (c : ℕ) (text : List ℕ) → IsTrimmed text → IsTrimmed (c ∷ text)
unfolding trim_right IsTrimmed
cons-IsTrimmed c [] h = absurd (h.0 refl)
cons-IsTrimmed c (d ∷ text) h = ((λ e. cc), ap (drop_blank c) h.1)

append-IsTrimmed : (row text : List ℕ) → IsTrimmed text → IsTrimmed (row ++ text)
append-IsTrimmed [] text h = h
append-IsTrimmed (c ∷ row) text h = cons-IsTrimmed c (row ++ text) (append-IsTrimmed row text h)

row-IsTrimmed : (row : List ℕ) → IsRow row → IsTrimmed row
unfolding trim_right IsTrimmed
row-IsTrimmed [] h = absurd (h.not_empty refl)
row-IsTrimmed (c ∷ []) h = ((λ e. cc), ground (arith, h.in_line.0))
row-IsTrimmed (c ∷ d ∷ row) h =
    cons-IsTrimmed c (d ∷ row)
      (row-IsTrimmed (d ∷ row) (record { not_empty = λ e. cc; in_line = h.in_line.1 }))

-- The last of the rows is not empty.
abbrev pub EndsWell : List (List ℕ) → Type 0
EndsWell [] = ⊥
EndsWell (row ∷ []) = IsRow row
EndsWell (row ∷ next ∷ rows) = EndsWell (next ∷ rows)

pub append-EndsWell : (before rows : List (List ℕ)) → EndsWell rows → EndsWell (before ++ rows)
append-EndsWell [] rows h = h
append-EndsWell (row ∷ []) [] h = absurd h
append-EndsWell (row ∷ []) (next ∷ rows) h = h
append-EndsWell (row ∷ next ∷ before) rows h = append-EndsWell (next ∷ before) rows h

join-IsTrimmed : (rows : List (List ℕ)) → EndsWell rows → IsTrimmed (join rows)
unfolding join
join-IsTrimmed [] h = absurd h
join-IsTrimmed (row ∷ []) h = row-IsTrimmed row h
join-IsTrimmed (row ∷ next ∷ rows) h =
    append-IsTrimmed row (newline ∷ join (next ∷ rows))
      (cons-IsTrimmed newline (join (next ∷ rows)) (join-IsTrimmed (next ∷ rows) h))

-- A first row that is not empty stops the trimming on the left.
trim_left-join :
    (row : List ℕ) (rows : List (List ℕ))
    → IsRow row
    → trim_left (join (row ∷ rows)) ≡ join (row ∷ rows)
unfolding trim_left join
trim_left-join [] rows h = absurd (h.not_empty refl)
trim_left-join (c ∷ row) [] h =
    let other : nat_eq.beq c newline ≡ false = ground (arith, h.in_line.0) in rw other refl
trim_left-join (c ∷ row) (next ∷ rows) h =
    let other : nat_eq.beq c newline ≡ false = ground (arith, h.in_line.0) in rw other refl

split-row : (row : List ℕ) → All (λ c. c ≢ newline) row → split row ≡ row ∷ []
unfolding split
split-row [] h = refl
split-row (c ∷ row) h =
    let other : nat_eq.beq c newline ≡ false = ground (arith, h.0) in
    rw (other, split-row row h.1) refl

split-line :
    (row text : List ℕ)
    → All (λ c. c ≢ newline) row
    → split (row ++ newline ∷ text) ≡ row ∷ split text
unfolding split
split-line [] text h = refl
split-line (c ∷ row) text h =
    let other : nat_eq.beq c newline ≡ false = ground (arith, h.0) in
    rw (other, split-line row text h.1) refl

split-join :
    (row : List ℕ) (rows : List (List ℕ))
    → All IsInLine (row ∷ rows)
    → split (join (row ∷ rows)) ≡ row ∷ rows
unfolding join
split-join row [] h = split-row row h.0
split-join row (next ∷ rows) h =
    split-line row (join (next ∷ rows)) h.0
    ∙ ap (λ (l : List (List ℕ)). row ∷ l) (split-join next rows h.1)

-- Rows of which the first and the last are not empty come back.
pub split-trim-join :
    (row : List ℕ) (rows : List (List ℕ))
    → IsRow row
    → All IsInLine rows
    → EndsWell (row ∷ rows)
    → split (trim (join (row ∷ rows))) ≡ row ∷ rows
unfolding trim IsTrimmed
split-trim-join row rows first others last =
    ap (λ (text : List ℕ). split (trim_right text)) (trim_left-join row rows first)
    ∙ ap split (join-IsTrimmed (row ∷ rows) last).1
    ∙ split-join row rows (first.in_line, others)

-- The same when no row is empty.
All-IsRow-IsInLine : (rows : List (List ℕ)) → All IsRow rows → All IsInLine rows
All-IsRow-IsInLine [] h = tt
All-IsRow-IsInLine (row ∷ rows) h = (h.0.in_line, All-IsRow-IsInLine rows h.1)

All-IsRow-EndsWell :
    (row : List ℕ) (rows : List (List ℕ)) → All IsRow (row ∷ rows) → EndsWell (row ∷ rows)
All-IsRow-EndsWell row [] h = h.0
All-IsRow-EndsWell row (next ∷ rows) h = All-IsRow-EndsWell next rows h.1

pub split-trim-join_rows :
    (row : List ℕ) (rows : List (List ℕ))
    → All IsRow (row ∷ rows)
    → split (trim (join (row ∷ rows))) ≡ row ∷ rows
split-trim-join_rows row rows h =
    split-trim-join row rows h.0 (All-IsRow-IsInLine rows h.1) (All-IsRow-EndsWell row rows h)

-- A row has nothing to trim.
pub trim-row : (row : List ℕ) → IsRow row → trim row ≡ row
unfolding trim IsTrimmed join
trim-row row h = ap trim_right (trim_left-join row [] h) ∙ (row-IsTrimmed row h).1
