-- ===== src/Match/Matcher.antt =====
-- `Matcher` of oracle/match.py. `json.dumps` of a normal form is a parameter; the indexes are
-- dictionaries by its text.
use browserfp.Prelude.{
  ℕ, Bool, true, false, ◌||◌, List, [], ◌∷◌, length, ltb, if◌then◌else◌, Option, some, none, Result,
  ok, err, index_error, key_error,
}
use browserfp.Text.{Text}
use browserfp.ClientHello.Fingerprint.{Fingerprint}
use browserfp.Match.Norm.{Norm, norm, diff, same_list}

-- A record of the registry. `h2` and `h3` hold the one text that the answer takes from each.
pub record Entry : Type 0 where
  pub id : Text
  pub aliases : List Text
  pub tls : Fingerprint
  pub mode : Option Text
  pub provenance : Option Text
  pub h2 : Option Text
  pub h3 : Option Text
  pub default_config : Bool

pub data Confidence : Type 0 where
  exact exact_no_pad : Confidence

-- A hit is the record, from which `_hit` copies its answer; or the nearest record, how many fields
-- differ, and which.
pub data Answer : Type 0 where
  hit : Entry → Confidence → Answer
  unknown : Entry → ℕ → List Text → Answer

-- `d.get(k)` and `d.setdefault(k, v)`
abbrev pub Index : Type 0
Index = List (Text × Entry)

unfoldable pub get : Text → Index → Option Entry
get k [] = none
get k ((j, r) ∷ d) = if same_list j k then some r else get k d

unfoldable pub put_first : Text → Entry → Index → Index
put_first k v [] = (k, v) ∷ []
put_first k v ((j, r) ∷ d) = if same_list j k then (j, r) ∷ d else (j, r) ∷ put_first k v d

abbrev pub is_alias : Text → List Text → Bool
is_alias t [] = false
is_alias t (u ∷ us) = same_list u t || is_alias t us

-- `find`
unfoldable pub find : Text → List Entry → Result Entry
find name [] = err key_error
find name (r ∷ rs) = if same_list r.id name || is_alias name r.aliases then ok r else find name rs

abbrev pub distance : Norm → Entry → ℕ
distance target r = length (diff target (norm r.tls true))

-- The first of the smallest: what `sorted` by the distance puts first, as it is stable.
unfoldable pub nearest_from : Norm → Entry → List Entry → Entry
nearest_from target best [] = best
nearest_from target best (r ∷ rs) =
    let closer = nearest_from target r rs in
    let same = nearest_from target best rs in
    if ltb (distance target r) (distance target best) then closer else same

-- `ranked[0]`, and the answer about it.
unfoldable pub nearest : Norm → List Entry → Result Answer
unfolding nearest_from
nearest target [] = err index_error
nearest target (r ∷ rs) =
    let best = nearest_from target r rs in
    ok (unknown best (distance target best) (diff target (norm best.tls true)))

-- What the two lookups found decides: the strict index first, then the one without padding.
unfoldable pub answer : Norm → List Entry → Option Entry → Option Entry → Result Answer
answer target registry (some r) unpadded = ok (hit r Confidence.exact)
answer target registry none (some r) = ok (hit r Confidence.exact_no_pad)
answer target registry none none = nearest target registry

module _ (dumps : Norm → Text) where
  -- The loop of `__init__` for one of the two indexes.
  unfoldable pub index_from : Bool → Index → List Entry → Index
  index_from ignore_padding d [] = d
  index_from ignore_padding d (r ∷ rs) =
      index_from ignore_padding (put_first (dumps (norm r.tls ignore_padding)) r d) rs

  unfoldable pub identify : List Entry → Fingerprint → Result Answer
  unfolding index_from
  identify registry fp =
      answer (norm fp true) registry (get (dumps (norm fp false)) (index_from false [] registry))
        (get (dumps (norm fp true)) (index_from true [] registry))
