-- ===== src/UaMap/Lookup.antt =====
-- `lookup` of oracle/uamap.py: the answers in the order in which the code looks for them.
use browserfp.Prelude.{
  maybe, ℕ, Bool, true, false, ◌&&◌, ◌||◌, List, [], ◌∷◌, map, if◌then◌else◌, Option, some, none,
  lookup, get_or, Result, ok, ◌>>=◌,
}
use browserfp.Text.{Text, text, join}
use browserfp.Pattern.{
  same_text, contains, without_suffix, remove_from, before_colon, after_colon, lower, is_some,
}
use browserfp.Match.Matcher.{Entry, is_alias}
use browserfp.UaMap.UserAgent.{mobile_suffix, chromium_engine, parse_ua}
use browserfp.UaMap.Table.{
  Row, Table, Mapper, of_brand, span_of, merge, nearest_in, lower_row, upper_row,
}

pub data Confidence : Type 0 where
  exact same_seg fallback unparsed no_brand no_version : Confidence

-- Which sentence the note is, and a version that it names.
pub data Note : Type 0 where
  not_a_browser as_desktop_row as_engine brand_unknown own_row : Note
  as_desktop_segment within_segment between_rows : ℕ → Note
  no_row : Note
  other_brand nearest_only : ℕ → Note

pub record Reply : Type 0 where
  pub profile : Option Text
  pub confidence : Confidence
  pub brand : Option Text
  pub version : Option ℕ
  pub nearest : Option Text
  pub note : Note

abbrev pub found : Text → ℕ → Entry → Confidence → Note → Reply
found brand ver rec confidence note = record {
  profile = some rec.id;
  confidence = confidence;
  brand = some brand;
  version = some ver;
  nearest = none;
  note = note;
}

abbrev pub refused : Text → ℕ → Confidence → Note → Reply
refused brand ver confidence note = record {
  profile = none;
  confidence = confidence;
  brand = some brand;
  version = some ver;
  nearest = none;
  note = note;
}

-- A step of `lookup` answers, or leaves the table for the steps behind it.
pub data Step : Type 0 where
  answered : Reply → Step
  going : Table → Step

abbrev pub names_of : Entry → List Text
names_of rec = rec.id ∷ rec.aliases

-- `{a.split(":", 1)[0] for a in names} & {…}` is not empty.
abbrev pub shared_source : List Text → List Text → Bool
shared_source [] hi = false
shared_source (a ∷ lo) hi = is_alias (before_colon a) (map before_colon hi) || shared_source lo hi

unfoldable pub short_names : List Text → Result (List Text)
unfolding after_colon
short_names [] = ok []
short_names (a ∷ names) = do n ← after_colon a; rest ← short_names names; ok (lower n ∷ rest)

abbrev pub far_reply : Bool → Bool → Text → ℕ → ℕ → Entry → Reply
far_reply false strict brand ver near rec =
    refused brand ver Confidence.no_version (other_brand near)
far_reply true strict brand ver near rec = record {
  profile = if strict then none else some rec.id;
  confidence = Confidence.fallback;
  brand = some brand;
  version = some ver;
  nearest = some rec.id;
  note = nearest_only near;
}

-- The answer that only crosses segments. The record must have an alias of the brand, or of the engine.
unfoldable pub far : Bool → Text → ℕ → Bool → (ℕ × Row) → Result Reply
unfolding remove_from contains
far strict brand ver derived (near, (rec, _)) = do
  names ← short_names (names_of rec)
  let all_names = join (text " ") names
  let base = if derived then text "chrome" else remove_from mobile_suffix 0 brand
  let is_brand =
      contains base all_names
      || same_text base (text "chrome") && contains (text "chromium") all_names
  ok (far_reply is_brand strict brand ver near rec)

-- Between two versions with one fingerprint from one source, or the nearest, the upper first.
unfoldable pub between : Bool → Text → ℕ → Bool → Option (ℕ × Row) → Option (ℕ × Row) → Result Reply
unfolding far
between strict brand ver derived none none = ok (refused brand ver Confidence.no_version no_row)
between strict brand ver derived none (some hi) = far strict brand ver derived hi
between strict brand ver derived (some lo) none = far strict brand ver derived lo
between strict brand ver derived (some (v, (rlo, klo))) (some (w, (rhi, khi))) =
    let farther = far strict brand ver derived (w, (rhi, khi)) in
    if same_text klo khi && shared_source (names_of rlo) (names_of rhi)
    then ok (found brand ver rhi Confidence.same_seg (between_rows v))
    else farther

module _ (m : Mapper) where
  abbrev pub rows : Text → Table
  rows brand = of_brand brand m.by_brand

  -- `{**engine's rows, **own}` where there is an engine.
  abbrev pub with_engine : Option Text → Table → Table
  with_engine none own = own
  with_engine (some e) own = merge (rows e) own

  -- Where the sources show that a mobile browser is like the desktop's in a span: the desktop's row,
  -- or the nearest in the desktop's segment.
  unfoldable pub as_desktop : Text → Text → ℕ → Text → Table → Step
  as_desktop brand seg_brand ver base own =
      let dtbl = rows base in
      let joined = going (merge dtbl own) in
      maybe (span_of ver (of_brand seg_brand m.desktop_equiv))
        (λ s.
          maybe (lookup ver dtbl)
            (λ row. answered (found brand ver row.0 Confidence.same_seg as_desktop_row))
            (maybe (span_of ver (of_brand base m.segments))
              (λ seg.
                maybe (nearest_in ver seg dtbl)
                  (λ near.
                    answered
                      (found brand ver near.1.0 Confidence.same_seg (as_desktop_segment near.0)))
                  joined)
              joined))
        (going own)

  -- The first step, for a mobile brand whose own and engine's rows lack the version.
  unfoldable pub mobile_step : Text → Text → ℕ → Table → Table → Step
  unfolding as_desktop
  mobile_step brand seg_brand ver have own =
      maybe (without_suffix mobile_suffix brand)
        (λ _.
          maybe (lookup ver have) (λ _. going own)
            (as_desktop brand seg_brand ver
              (get_or seg_brand (without_suffix mobile_suffix seg_brand)) own))
        (going own)

  -- The second step, for a derived brand: the engine's row.
  unfoldable pub engine_step : Text → ℕ → Option Text → Table → Step
  engine_step brand ver none own = going own
  engine_step brand ver (some e) own =
      maybe (lookup ver own) (λ _. going own)
        (maybe (lookup ver (rows e))
          (λ row. answered (found brand ver row.0 Confidence.exact as_engine))
          (going (merge (rows e) own)))

  -- The rest, with the table that the steps have left.
  unfoldable pub last_step : Bool → Text → Text → ℕ → Bool → Table → Result Reply
  unfolding between
  last_step strict brand seg_brand ver derived [] =
      ok (refused brand ver Confidence.no_brand brand_unknown)
  last_step strict brand seg_brand ver derived (r ∷ rs) =
      let table = r ∷ rs in
      let farther = between strict brand ver derived (lower_row ver table) (upper_row ver table) in
      maybe (lookup ver table) (λ row. ok (found brand ver row.0 Confidence.exact own_row))
        (maybe (span_of ver (of_brand seg_brand m.segments))
          (λ seg.
            maybe (nearest_in ver seg table)
              (λ near. ok (found brand ver near.1.0 Confidence.same_seg (within_segment near.0)))
              farther)
          farther)

  unfoldable pub then_last : Bool → Text → Text → ℕ → Bool → Step → Result Reply
  unfolding last_step
  then_last strict brand seg_brand ver derived (answered r) = ok r
  then_last strict brand seg_brand ver derived (going own) =
      last_step strict brand seg_brand ver derived own

  unfoldable pub then_engine : Bool → Text → Text → ℕ → Option Text → Step → Result Reply
  unfolding engine_step then_last
  then_engine strict brand seg_brand ver engine (answered r) = ok r
  then_engine strict brand seg_brand ver engine (going own) =
      then_last strict brand seg_brand ver (is_some engine) (engine_step brand ver engine own)

  unfoldable pub lookup_brand : Bool → Text → ℕ → Result Reply
  unfolding mobile_step then_engine
  lookup_brand strict brand ver =
      let engine = chromium_engine brand in
      let seg_brand = get_or brand engine in
      let own = rows brand in
      then_engine strict brand seg_brand ver engine
        (mobile_step brand seg_brand ver (with_engine engine own) own)

  abbrev pub unparsed_reply : Reply
  unparsed_reply = record {
    profile = none;
    confidence = Confidence.unparsed;
    brand = none;
    version = none;
    nearest = none;
    note = not_a_browser;
  }

  unfoldable pub lookup_ua : Text → Bool → Result Reply
  unfolding lookup_brand
  lookup_ua ua strict = maybe (parse_ua ua) (λ p. lookup_brand strict p.0 p.1) (ok unparsed_reply)
