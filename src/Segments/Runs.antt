-- ===== src/Segments/Runs.antt =====
-- `segment` of oracle/segments.py. `_key`, a text that `json.dumps` makes of the tables of a version,
-- is a parameter.
use browserfp.Prelude.{ℕ, ◌+◌, ◌&&◌, List, [], ◌∷◌, ◌==◌, if◌then◌else◌}
use browserfp.Prelude.Sort.{sort}
use browserfp.Text.{Text}
use browserfp.Match.Norm.{same_list}

-- The tables that a segment also holds are those of its first version.
pub record Segment : Type 0 where
  pub from : ℕ
  pub to : ℕ
  pub key : Text

module _ (key_of : ℕ → Text) where
  -- One round: the last segment takes the version, or a new one begins with it.
  unfoldable pub extend : List Segment → ℕ → List Segment
  extend [] v = record { from = v; to = v; key = key_of v } ∷ []
  extend (s ∷ []) v =
      if same_list s.key (key_of v) && v == s.to + 1
      then record s { to = v } ∷ []
      else s ∷ record { from = v; to = v; key = key_of v } ∷ []
  extend (s ∷ t ∷ rest) v = s ∷ extend (t ∷ rest) v

  unfoldable pub segments_from : List Segment → List ℕ → List Segment
  unfolding extend
  segments_from segs [] = segs
  segments_from segs (v ∷ vs) = segments_from (extend segs v) vs

  -- `versions` are the keys of the dictionary of tables.
  unfoldable pub segment : List ℕ → List Segment
  unfolding segments_from
  segment versions = segments_from [] (sort versions)
