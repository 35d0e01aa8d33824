-- ===== src/UaMap/Mapped.antt =====
-- `lookup` of oracle/uamap.py in the tables that `__init__` has made of the registry.
use mathlib.Core.List.{Memᴰ}
use browserfp.Prelude.{
  ℕ, ◌≡◌, inl, inr, sym, ap, subst, ◌∙◌, Bool, true, List, [], ◌∷◌, Option, some, none, maybe,
  Bool-cases, ok,
}
use browserfp.Text.{Text}
use browserfp.Pattern.{same_text}
use browserfp.Match.Norm.{Norm}
use browserfp.Keyed.{Every}
use browserfp.UaMap.UserAgent.{chromium_engine}
use browserfp.UaMap.Table.{Row, Table, Mapper, of_brand}
use browserfp.UaMap.Lookup.{exact, Reply, rows, lookup_brand}
use browserfp.UaMap.Exact.{IsRow, lookup_brand-exact}
use browserfp.UaMap.Build.{Listed, SegmentFile, is_used, mapper_of}
use browserfp.UaMap.Rows.{RowsOf, IsUsed, mapper_of-IsUsed}

module _ (P : Row → Type 0) where
  of_brand-RowsOf :
      (k : Text) (tables : List (Text × Table))
      → Every (λ b t. RowsOf P t) tables
      → RowsOf P (of_brand k tables)
  unfolding of_brand
  of_brand-RowsOf k [] h = tt
  of_brand-RowsOf k ((j, t) ∷ tables) h = elim (Bool-cases (same_text j k)) [
    | inl e ↦ rw e h.0
    | inr n ↦ rw n (of_brand-RowsOf k tables h.1)
  ]

  row-RowsOf : (v : ℕ) (row : Row) (t : Table) → IsRow v row t → RowsOf P t → P row
  row-RowsOf v row [] i h = absurd i
  row-RowsOf v row ((w, s) ∷ t) (inl e) h = subst P (sym e.1) h.0
  row-RowsOf v row ((w, s) ∷ t) (inr i) h = row-RowsOf v row t i h.1

  engine-RowsOf :
      (m : Mapper) (engine : Option Text)
      → Every (λ b t. RowsOf P t) m.by_brand
      → RowsOf P (maybe engine (rows m) [])
  engine-RowsOf m none h = tt
  engine-RowsOf m (some e) h = of_brand-RowsOf e m.by_brand h

-- An exact answer out of the tables that are made of a registry names a record of that registry, one
-- that stands for a first connection with the browser's default configuration.
pub lookup_brand-mapper_of :
    (dumps : Norm → Text) (registry : List Listed) (files : List SegmentFile) (m : Mapper)
    (strict : Bool) (brand : Text) (ver : ℕ) (r : Reply)
    → mapper_of dumps registry files ≡ ok m
    → lookup_brand m strict brand ver ≡ ok r
    → r.confidence ≡ exact
    → (l : Listed) × Memᴰ l registry × (is_used l.entry ≡ true) × (r.profile ≡ some l.entry.id)
lookup_brand-mapper_of dumps registry files m strict brand ver r hm h c =
    let all = mapper_of-IsUsed dumps registry files m hm in
    let sample = lookup_brand-exact m strict brand ver r h c in
    let P = IsUsed dumps registry in
    let used : IsUsed dumps registry sample.row = elim sample.sampled [
      | inl i ↦ row-RowsOf P ver sample.row _ i (of_brand-RowsOf P brand m.by_brand all)
      | inr i ↦ row-RowsOf P ver sample.row _ i (engine-RowsOf P m (chromium_engine brand) all)
    ] in
    (used.0, used.1, used.2, sample.named ∙ ap (λ (x : Row). some x.0.id) used.3)
