-- ===== src/UaMap/Build.antt =====
-- `UAMapper.__init__`, `load_segments` and `load_desktop_equivalent` of oracle/uamap.py. The files are
-- parameters. Two records are one object where their ids are the same.
use browserfp.Prelude.{
  ℕ, Bool, false, not, ◌&&◌, List, [], ◌∷◌, ◌++◌, map, any, filter, if◌then◌else◌, Option, some,
  none, maybe, get_or, set_default, Result, ok, ◌>>=◌,
}
use browserfp.Text.{Text, text}
use browserfp.Pattern.{same_text, is_some, without_suffix, after_colon, lower}
use browserfp.Match.Norm.{Norm, norm}
use browserfp.Match.Matcher.{Entry, is_alias}
use browserfp.Keyed.{get_at, modify}
use browserfp.UaMap.UserAgent.{mobile_suffix}
use browserfp.UaMap.Table.{Row, Table, Span, Mapper}
use browserfp.UaMap.Lookup.{names_of}
use browserfp.UaMap.Alias.{
  alias_brands, is_mobile, read_alias, before_dash, brand_named, major_of_text, has_prefix,
}

-- A record of the registry with the fields that only the mapper reads.
pub record Listed : Type 0 where
  pub entry : Entry
  pub versions : List Text
  pub covers_versions : List ℕ

abbrev pub Tables : Type 0
Tables = List (Text × Table)

-- `self.by_brand.setdefault(brand, {}).setdefault(ver, row)`
unfoldable pub put_row : Text → ℕ → Row → Tables → Tables
put_row brand ver row tables = modify brand (λ t. set_default ver row (get_or [] t)) tables

-- `a.split(":", 1)[1]` of all names
unfoldable pub short_names_of : List Text → Result (List Text)
short_names_of [] = ok []
short_names_of (a ∷ names) = do n ← after_colon a; rest ← short_names_of names; ok (n ∷ rest)

unfoldable pub add_aliases : Row → List Text → Tables → Tables
add_aliases row [] tables = tables
add_aliases row (name ∷ names) tables =
    add_aliases row names (maybe (read_alias (lower name)) (λ r. put_row r.0 r.1 row tables) tables)

-- The brands that the aliases name, as a set.
unfoldable pub brands_of : List Text → List Text
brands_of [] = []
brands_of (name ∷ names) =
    let rest = brands_of names in
    maybe (brand_named alias_brands (lower (before_dash name)))
      (λ b. if is_alias b rest then rest else b ∷ rest) rest

unfoldable pub add_version : Row → ℕ → List Text → Tables → Tables
add_version row ver [] tables = tables
add_version row ver (b ∷ brands) tables = add_version row ver brands (put_row b ver row tables)

unfoldable pub add_covers : Row → List ℕ → List Text → Tables → Tables
unfolding add_version
add_covers row [] brands tables = tables
add_covers row (v ∷ covers) brands tables =
    add_covers row covers brands (add_version row v brands tables)

-- The versions of Chrome that the record has are versions of Edge.
unfoldable pub add_edge : Row → Table → Tables → Tables
add_edge row [] tables = tables
add_edge row ((v, other) ∷ chrome) tables =
    add_edge row chrome
      (if same_text other.0.id row.0.id then put_row (text "edge") v row tables else tables)

abbrev pub has_chrome : List Text → Bool
has_chrome names = any (has_prefix (text "chrome" ∷ text "chromium" ∷ [])) names

abbrev pub has_edge : List Text → Bool
has_edge names = any (has_prefix (text "edge" ∷ [])) names

abbrev pub with_edge : Row → Tables → Tables
with_edge row tables =
    if has_chrome (names_of row.0) && has_edge (names_of row.0)
    then add_edge row (get_or [] (get_at (text "chrome") tables)) tables
    else tables

-- The brand of a capture, by its id and the text of its version.
abbrev pub brand_of_capture : Text → Text → Option Text
brand_of_capture name version =
    maybe (brand_named alias_brands (before_dash name))
      (λ b. some (if is_mobile (name ++ (text " " ++ version)) then b ++ mobile_suffix else b)) none

abbrev pub is_mobile_brand : Text → Bool
is_mobile_brand b = is_some (without_suffix mobile_suffix b)

abbrev pub named_or : List Text → Option Text → List Text
named_or [] none = []
named_or [] (some b) = b ∷ []
named_or (b ∷ bs) brand = b ∷ bs

abbrev pub suffix_of : Option Text → Text
suffix_of none = []
suffix_of (some b) = if is_mobile_brand b then mobile_suffix else []

-- A record with the alias of a mobile browser serves that too.
unfoldable pub on_mobile_too : Row → List Text → ℕ → Option Text → Tables → Tables
on_mobile_too row names ver none tables = tables
on_mobile_too row names ver (some b) tables =
    if not (is_mobile_brand b) && any is_mobile names
    then put_row (b ++ mobile_suffix) ver row tables
    else tables

-- One version of a capture, for each brand of the record.
unfoldable pub add_capture : Row → Text → List Text → List Text → Text → ℕ → Tables → Tables
unfolding add_version on_mobile_too
add_capture row id_name names brands version ver tables =
    let brand = brand_of_capture id_name version in
    on_mobile_too row names ver brand
      (add_version row ver (map (λ b. b ++ suffix_of brand) (named_or brands brand)) tables)

unfoldable pub add_captures : Row → Text → List Text → List Text → List Text → Tables → Tables
unfolding add_capture
add_captures row id_name names brands [] tables = tables
add_captures row id_name names brands (version ∷ versions) tables =
    add_captures row id_name names brands versions (
      maybe (major_of_text version) (λ ver. add_capture row id_name names brands version ver tables)
        tables)

abbrev pub is_used : Entry → Bool
is_used e = e.default_config && maybe e.mode (λ m. same_text m (text "initial")) false

module _ (dumps : Norm → Text) where
  abbrev pub row_of : Entry → Row
  row_of e = (e, dumps (norm e.tls false))

  -- What one record adds: its aliases, the versions it covers, those of Edge, and those it was seen in.
  unfoldable pub add_record : Listed → Tables → Result Tables
  unfolding add_aliases add_covers add_edge add_captures
  add_record r tables = do
    let row = row_of r.entry
    names ← short_names_of (names_of r.entry)
    id_name ← after_colon r.entry.id
    let brands = brands_of names
    let covered = add_covers row r.covers_versions brands (add_aliases row names tables)
    ok (add_captures row id_name names brands r.versions (with_edge row covered))

  unfoldable pub add_records : List Listed → Tables → Result Tables
  unfolding add_record
  add_records [] tables = ok tables
  add_records (r ∷ registry) tables =
      let skipped = add_records registry tables in
      let added = add_record r tables >>= (λ t. add_records registry t) in
      if is_used r.entry then added else skipped

-- A segment as its file has it.
pub record SegmentRow : Type 0 where
  pub span : Span
  pub substitutable : Bool
  pub same_as_desktop : Bool

-- A file of segments: the brand and its segments.
abbrev pub SegmentFile : Type 0
SegmentFile = Text × List SegmentRow

abbrev pub add_spans : Text → List SegmentRow → List (Text × List Span) → List (Text × List Span)
add_spans brand [] out = out
add_spans brand (s ∷ rows) out = modify brand (λ o. map (λ r. r.span) (s ∷ rows)) out

-- `load_segments`: of each file the segments that may stand in, if there are any.
unfoldable pub load_segments : List SegmentFile → List (Text × List Span) → List (Text × List Span)
load_segments [] out = out
load_segments ((brand, rows) ∷ files) out =
    load_segments files (add_spans brand (filter (λ r. r.substitutable) rows) out)

-- `load_desktop_equivalent`: of each file of a mobile brand the segments that are like the desktop's.
unfoldable pub load_desktop_equivalent :
    List SegmentFile → List (Text × List Span) → List (Text × List Span)
load_desktop_equivalent [] out = out
load_desktop_equivalent ((brand, rows) ∷ files) out = load_desktop_equivalent files (
    if is_some (without_suffix mobile_suffix brand)
    then add_spans brand (filter (λ r. r.same_as_desktop) rows) out
    else out)

-- `UAMapper.__init__`
unfoldable pub mapper_of : (Norm → Text) → List Listed → List SegmentFile → Result Mapper
unfolding add_records load_segments load_desktop_equivalent
mapper_of dumps registry files = do
  tables ← add_records dumps registry []
  ok (record {
    by_brand = tables;
    segments = load_segments files [];
    desktop_equiv = load_desktop_equivalent files [];
  })
