-- ===== src/UaMap/Rows.antt =====
-- Which records `UAMapper.__init__` of oracle/uamap.py lets into its tables.
use mathlib.Core.List.{Memᴰ}
use browserfp.Prelude.{
  ℕ, ◌≡◌, refl, ap, subst, Bool, true, false, List, [], ◌∷◌, Option, some, none, maybe, get_or,
  set_default, ◌==◌, Bool-cases, inl, inr, if◌then◌else◌, ok, ok_bind, ok-injective, not, ◌&&◌, any,
  ◌++◌, map,
}
use browserfp.Text.{Text, text}
use browserfp.Pattern.{same_text, after_colon, lower}
use browserfp.Match.Norm.{Norm}
use browserfp.Keyed.{Every, Every-modify, get_at}
use browserfp.UaMap.Table.{Row, Table, Mapper}
use browserfp.UaMap.Lookup.{names_of}
use browserfp.UaMap.Build.{
  Listed, Tables, SegmentFile, put_row, short_names_of, add_aliases, add_version, add_covers,
  add_edge, with_edge, has_chrome, has_edge, add_capture, on_mobile_too, is_mobile_brand, suffix_of,
  named_or, brand_of_capture, brands_of, add_captures, is_used, row_of, add_record, add_records,
  mapper_of,
}
use browserfp.UaMap.Alias.{read_alias, major_of_text, is_mobile}
use browserfp.UaMap.UserAgent.{mobile_suffix}

-- What holds of every row of a table.
abbrev pub RowsOf {κ} : (Row → Type κ) → Table → Type κ
RowsOf P [] = Unit
RowsOf P ((v, row) ∷ t) = P row × RowsOf P t

module _ (P : Row → Type 0) where
  abbrev AllRows : Tables → Type 0
  AllRows tables = Every (λ b t. RowsOf P t) tables

  set_default-RowsOf :
      (v : ℕ) (row : Row) (t : Table) → P row → RowsOf P t → RowsOf P (set_default v row t)
  set_default-RowsOf v row [] p h = (p, tt)
  set_default-RowsOf v row ((w, r) ∷ t) p h = elim (Bool-cases (w == v)) [
    | inl e ↦ rw e h
    | inr n ↦ rw n (h.0, set_default-RowsOf v row t p h.1)
  ]

  module _ (row : Row) (p : P row) where
    put_row-AllRows :
        (b : Text) (v : ℕ) (tables : Tables) → AllRows tables → AllRows (put_row b v row tables)
    unfolding put_row
    put_row-AllRows b v tables h =
        Every-modify (λ j t. RowsOf P t) b (λ t. set_default v row (get_or [] t)) tables (p, tt)
          (λ t q. set_default-RowsOf v row t p q) h

    if-AllRows : (c : Bool) (s t : Tables) → AllRows s → AllRows t → AllRows (if c then s else t)
    if-AllRows true s t h k = h
    if-AllRows false s t h k = k

    maybe-AllRows {κ} :
        {A : Type κ} (o : Option A) (f : A → Tables) (t : Tables)
        → ((a : A) → AllRows (f a))
        → AllRows t
        → AllRows (maybe o f t)
    maybe-AllRows none f t h k = k
    maybe-AllRows (some a) f t h k = h a

    add_aliases-AllRows :
        (names : List Text) (tables : Tables)
        → AllRows tables
        → AllRows (add_aliases row names tables)
    unfolding add_aliases
    add_aliases-AllRows [] tables h = h
    add_aliases-AllRows (name ∷ names) tables h =
        add_aliases-AllRows names _ (
          maybe-AllRows (read_alias (lower name)) _ tables (λ r. put_row-AllRows r.0 r.1 tables h)
            h)

    add_version-AllRows :
        (v : ℕ) (brands : List Text) (tables : Tables)
        → AllRows tables
        → AllRows (add_version row v brands tables)
    unfolding add_version
    add_version-AllRows v [] tables h = h
    add_version-AllRows v (b ∷ brands) tables h =
        add_version-AllRows v brands _ (put_row-AllRows b v tables h)

    add_covers-AllRows :
        (covers : List ℕ) (brands : List Text) (tables : Tables)
        → AllRows tables
        → AllRows (add_covers row covers brands tables)
    unfolding add_covers
    add_covers-AllRows [] brands tables h = h
    add_covers-AllRows (v ∷ covers) brands tables h =
        add_covers-AllRows covers brands _ (add_version-AllRows v brands tables h)

    add_edge-AllRows :
        (chrome : Table) (tables : Tables) → AllRows tables → AllRows (add_edge row chrome tables)
    unfolding add_edge
    add_edge-AllRows [] tables h = h
    add_edge-AllRows ((v, other) ∷ chrome) tables h = add_edge-AllRows chrome _ (
        if-AllRows (same_text other.0.id row.0.id) _ _ (put_row-AllRows (text "edge") v tables h) h)

    on_mobile_too-AllRows :
        (names : List Text) (v : ℕ) (brand : Option Text) (tables : Tables)
        → AllRows tables
        → AllRows (on_mobile_too row names v brand tables)
    unfolding on_mobile_too
    on_mobile_too-AllRows names v none tables h = h
    on_mobile_too-AllRows names v (some b) tables h =
        if-AllRows (not (is_mobile_brand b) && any is_mobile names) _ tables
          (put_row-AllRows (b ++ mobile_suffix) v tables h) h

    add_capture-AllRows :
        (id_name : Text) (names brands : List Text) (version : Text) (v : ℕ) (tables : Tables)
        → AllRows tables
        → AllRows (add_capture row id_name names brands version v tables)
    unfolding add_capture
    add_capture-AllRows id_name names brands version v tables h =
        let brand = brand_of_capture id_name version in
        on_mobile_too-AllRows names v brand _
          (add_version-AllRows v (map (λ b. b ++ suffix_of brand) (named_or brands brand)) tables h)

    add_captures-AllRows :
        (id_name : Text) (names brands versions : List Text) (tables : Tables)
        → AllRows tables
        → AllRows (add_captures row id_name names brands versions tables)
    unfolding add_captures
    add_captures-AllRows id_name names brands [] tables h = h
    add_captures-AllRows id_name names brands (version ∷ versions) tables h =
        add_captures-AllRows id_name names brands versions _ (
          maybe-AllRows (major_of_text version) _ tables
            (λ v. add_capture-AllRows id_name names brands version v tables h) h)

    with_edge-AllRows : (tables : Tables) → AllRows tables → AllRows (with_edge row tables)
    with_edge-AllRows tables h =
        if-AllRows (has_chrome (names_of row.0) && has_edge (names_of row.0)) _ tables
          (add_edge-AllRows (get_or [] (get_at (text "chrome") tables)) tables h) h

  add_record-AllRows :
      (dumps : Norm → Text) (r : Listed) (tables out : Tables)
      → P (row_of dumps r.entry)
      → AllRows tables
      → add_record dumps r tables ≡ ok out
      → AllRows out
  unfolding add_record
  add_record-AllRows dumps r tables out p h e =
      ok_bind (short_names_of (names_of r.entry)) _ e (λ names e1 h1.
        ok_bind (after_colon r.entry.id) _ h1 (λ id_name e2 h2.
          let row = row_of dumps r.entry in
          let brands = brands_of names in
          let covered =
            add_covers-AllRows row p r.covers_versions brands _
              (add_aliases-AllRows row p names tables h) in
          subst AllRows (ok-injective h2) (
            add_captures-AllRows row p id_name names brands r.versions _
              (with_edge-AllRows row p _ covered))))

  add_records-AllRows :
      (dumps : Norm → Text) (registry : List Listed) (tables out : Tables)
      → ((r : Listed) → Memᴰ r registry → is_used r.entry ≡ true → P (row_of dumps r.entry))
      → AllRows tables
      → add_records dumps registry tables ≡ ok out
      → AllRows out
  unfolding add_records
  add_records-AllRows dumps [] tables out p h e = subst AllRows (ok-injective e) h
  add_records-AllRows dumps (r ∷ registry) tables out p h e = elim (Bool-cases (is_used r.entry)) [
    | inl u ↦ ok_bind (add_record dumps r tables) _ (rw u at e) (λ t e1 h1.
        add_records-AllRows dumps registry t out (λ s m q. p s (Memᴰ.tail m) q)
          (add_record-AllRows dumps r tables t (p r (Memᴰ.head refl) u) h e1) h1)
    | inr u ↦
        add_records-AllRows dumps registry tables out (λ s m q. p s (Memᴰ.tail m) q) h (rw u at e)
  ]

-- A row is that of a record of the registry that is used: the first connection of a browser as it comes.
abbrev pub IsUsed : (Norm → Text) → List Listed → Row → Type 0
IsUsed dumps registry row =
    (r : Listed) × Memᴰ r registry × (is_used r.entry ≡ true) × (row ≡ row_of dumps r.entry)

-- Every row that a mapper looks up is a record of the registry with the text of its own fingerprint, and
-- a record that stands for a first connection with the browser's default configuration.
pub mapper_of-IsUsed :
    (dumps : Norm → Text) (registry : List Listed) (files : List SegmentFile) (m : Mapper)
    → mapper_of dumps registry files ≡ ok m
    → Every (λ b t. RowsOf (IsUsed dumps registry) t) m.by_brand
unfolding mapper_of
mapper_of-IsUsed dumps registry files m h =
    ok_bind (add_records dumps registry []) _ h (λ tables e e'.
      subst (λ t. Every (λ b u. RowsOf (IsUsed dumps registry) u) t)
        (ap (λ (x : Mapper). x.by_brand) (ok-injective e'))
        (add_records-AllRows (IsUsed dumps registry) dumps registry [] tables
          (λ r i u. (r, i, u, refl)) tt e))
