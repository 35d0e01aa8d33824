-- ===== src/UaMap/Table.antt =====
-- The tables of `UAMapper` of oracle/uamap.py, as dictionaries in the order of insertion.
use browserfp.Prelude.{
  ℕ, ◌+◌, ◌-◌, Bool, ◌&&◌, List, [], ◌∷◌, ltb, leb, if◌then◌else◌, Option, some, none, put,
}
use browserfp.Text.{Text}
use browserfp.Pattern.{same_text}
use browserfp.Match.Matcher.{Entry}

-- A record of the registry with the text of its fingerprint.
abbrev pub Row : Type 0
Row = Entry × Text

-- By version.
abbrev pub Table : Type 0
Table = List (ℕ × Row)

-- `d.get(k) or []` and `d.get(k) or {}`, by brand.
unfoldable pub of_brand {ℓ} : {A : Type ℓ} → Text → List (Text × List A) → List A
of_brand k [] = []
of_brand k ((j, v) ∷ d) = if same_text j k then v else of_brand k d

-- The versions from the first to the second.
abbrev pub Span : Type 0
Span = ℕ × ℕ

pub record Mapper : Type 0 where
  pub by_brand : List (Text × Table)
  pub segments : List (Text × List Span)
  pub desktop_equiv : List (Text × List Span)

abbrev pub in_span : ℕ → Span → Bool
in_span ver s = leb s.0 ver && leb ver s.1

-- The first that holds the version: both loops over spans end with it.
unfoldable pub span_of : ℕ → List Span → Option Span
span_of ver [] = none
span_of ver (s ∷ spans) = let next = span_of ver spans in if in_span ver s then some s else next

-- `{**a, **b}`
unfoldable pub merge : Table → Table → Table
merge a [] = a
merge a ((v, r) ∷ b) = merge (put v r a) b

abbrev pub gap : ℕ → ℕ → ℕ
gap a b = (a - b) + (b - a)

-- `sorted(rows, key=lambda v: abs(v - ver))[0]`: the first of the nearest, as the sort is stable.
unfoldable pub nearest_row : ℕ → (ℕ × Row) → Table → ℕ × Row
nearest_row ver best [] = best
nearest_row ver best (row ∷ rows) =
    let closer = nearest_row ver row rows in
    let same = nearest_row ver best rows in
    if ltb (gap row.0 ver) (gap best.0 ver) then closer else same

-- The nearest version within a span.
unfoldable pub nearest_in : ℕ → Span → Table → Option (ℕ × Row)
unfolding nearest_row
nearest_in ver s [] = none
nearest_in ver s (row ∷ rows) =
    let rest = nearest_in ver s rows in
    let inside = nearest_row ver row (within s rows) in
    if in_span row.0 s then some inside else rest
  where
    within : Span → Table → Table
    within s [] = []
    within s (r ∷ rs) = let rest = within s rs in if in_span r.0 s then r ∷ rest else rest

-- `max(v for v in table if v < ver)` and `min(v for v in table if v > ver)`
unfoldable pub lower_row : ℕ → Table → Option (ℕ × Row)
lower_row ver [] = none
lower_row ver (row ∷ rows) =
    let rest = lower_row ver rows in
    if ltb row.0 ver
    then elim rest [ none ↦ some row | some r ↦ if ltb row.0 r.0 then some r else some row ]
    else rest

unfoldable pub upper_row : ℕ → Table → Option (ℕ × Row)
upper_row ver [] = none
upper_row ver (row ∷ rows) =
    let rest = upper_row ver rows in
    if ltb ver row.0
    then elim rest [ none ↦ some row | some r ↦ if ltb r.0 row.0 then some r else some row ]
    else rest
