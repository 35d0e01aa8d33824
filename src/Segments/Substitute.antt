-- ===== src/Segments/Substitute.antt =====
-- `segment_substitutable` of oracle/segments.py: whether one profile of a segment may stand for another.
-- Sets are lists without repetitions, in the order of insertion; a reason is a value and not a text.
use browserfp.Prelude.{
  ℕ, zero, suc, ◌+◌, ◌-◌, max, Bool, true, false, ◌&&◌, List, [], ◌∷◌, ◌++◌, length, elem, ltb, leb,
  ◌==◌, if◌then◌else◌, Option, lookup, get_or,
}
use browserfp.Text.{Text}
use browserfp.Match.Norm.{same_list}
use browserfp.Match.Matcher.{is_alias}
use browserfp.Keyed.{modify}
use browserfp.Segments.Runs.{Segment}

-- The versions in which a source shows each fingerprint.
abbrev pub Keys : Type 0
Keys = List (Text × List ℕ)

-- By source.
abbrev pub Evidence : Type 0
Evidence = List (Text × Keys)

-- A capture: its version, its source, and the text of its fingerprint.
abbrev pub Capture : Type 0
Capture = ℕ × Text × Text

-- `s.add(v)`
abbrev pub add_version : ℕ → List ℕ → List ℕ
add_version v vs = if elem v vs then vs else vs ++ (v ∷ [])

abbrev pub add_source : Text → List Text → List Text
add_source src srcs = if is_alias src srcs then srcs else srcs ++ (src ∷ [])

abbrev pub of_version : ℕ → List (Text × Text) → List Capture
of_version v [] = []
of_version v ((src, key) ∷ found) = (v, src, key) ∷ of_version v found

-- What the two loops go over: `for v in range(…): for src, key in golden.get(v, [])`.
unfoldable pub captures_from : ℕ → ℕ → List (ℕ × List (Text × Text)) → List Capture
captures_from v zero golden = []
captures_from v (suc n) golden =
    of_version v (get_or [] (lookup v golden)) ++ captures_from (suc v) n golden

abbrev pub captures : Segment → List (ℕ × List (Text × Text)) → List Capture
captures seg golden = captures_from seg.from (seg.to + 1 - seg.from) golden

-- `per_src.setdefault(src, {}).setdefault(key, set()).add(v)`
abbrev pub noted_key : ℕ → Text → Option Keys → Keys
noted_key v key old = modify key (λ vs. add_version v (get_or [] vs)) (get_or [] old)

unfoldable pub collect_evidence : List Capture → Evidence → Evidence
collect_evidence [] e = e
collect_evidence ((v, src, key) ∷ found) e = collect_evidence found (modify src (noted_key v key) e)

-- `STRONG`
abbrev pub strong : ℕ
strong = 3

abbrev pub union : List ℕ → List ℕ → List ℕ
union [] seen = seen
union (v ∷ vs) seen = union vs (add_version v seen)

abbrev pub covered_by : Keys → List ℕ → List ℕ
covered_by [] seen = seen
covered_by ((key, vs) ∷ keys) seen = covered_by keys (union vs seen)

-- `len({v for vs in keys.values() for v in vs})`
abbrev pub version_count : Keys → ℕ
version_count keys = length (covered_by keys [])

-- `sizes[0]`, where `sizes` goes down, and the sum of all sizes.
abbrev pub largest : Keys → ℕ
largest [] = 0
largest ((key, vs) ∷ keys) = max (length vs) (largest keys)

abbrev pub size_sum : Keys → ℕ
size_sum [] = 0
size_sum ((key, vs) ∷ keys) = length vs + size_sum keys

-- What a source says: one fingerprint; several, of which one has the majority; several.
pub data Class : Type 0 where
  consistent : ℕ → Class
  majority : ℕ → ℕ → Class
  divided : ℕ → ℕ → Class

unfoldable pub class_of : Keys → Class
class_of keys =
    let n = version_count keys in
    let top = largest keys in
    let others = size_sum keys - top in
    if length keys == 1
    then consistent n
    else if ltb others top && leb strong top
    then majority top others
    else divided (length keys) n

abbrev pub ok_of : Text → Class → List (Text × ℕ) → List (Text × ℕ)
ok_of src (consistent n) rest = if leb strong n then (src, n) ∷ rest else rest
ok_of src _ rest = rest

-- The four lists. A division is strong evidence if the source covers enough versions.
unfoldable pub strong_ok : Evidence → List (Text × ℕ)
unfolding class_of
strong_ok [] = []
strong_ok ((src, keys) ∷ e) = ok_of src (class_of keys) (strong_ok e)

abbrev pub bad_of : Text → Class → List (Text × ℕ × ℕ) → List (Text × ℕ × ℕ)
bad_of src (divided k n) rest = if leb strong n then (src, k, n) ∷ rest else rest
bad_of src _ rest = rest

abbrev pub weak_of : Text → Class → List (Text × ℕ × ℕ) → List (Text × ℕ × ℕ)
weak_of src (divided k n) rest = if leb strong n then rest else (src, k, n) ∷ rest
weak_of src _ rest = rest

abbrev pub major_of : Text → Class → List (Text × ℕ × ℕ) → List (Text × ℕ × ℕ)
major_of src (majority a b) rest = (src, a, b) ∷ rest
major_of src _ rest = rest

abbrev pub listed :
    (Text → Class → List (Text × ℕ × ℕ) → List (Text × ℕ × ℕ)) → Evidence → List (Text × ℕ × ℕ)
listed which [] = []
listed which ((src, keys) ∷ e) = which src (class_of keys) (listed which e)

-- `groups`: the sources that show each fingerprint.
abbrev pub group_keys : Text → Keys → List (Text × List Text) → List (Text × List Text)
group_keys src [] groups = groups
group_keys src ((key, vs) ∷ keys) groups =
    group_keys src keys (modify key (λ srcs. add_source src (get_or [] srcs)) groups)

unfoldable pub groups_of : Evidence → List (Text × List Text) → List (Text × List Text)
groups_of [] groups = groups
groups_of ((src, keys) ∷ e) groups = groups_of e (group_keys src keys groups)

-- The first of the largest groups.
unfoldable pub top_group : (Text × List Text) → List (Text × List Text) → Text × List Text
top_group best [] = best
top_group best (g ∷ groups) =
    let larger = top_group g groups in
    let same = top_group best groups in if ltb (length best.1) (length g.1) then larger else same

-- The sources in the groups of other fingerprints.
unfoldable pub others_than : Text → List (Text × List Text) → ℕ
others_than top [] = 0
others_than top ((key, srcs) ∷ groups) =
    let rest = others_than top groups in if same_list key top then rest else length srcs + rest

pub data Why : Type 0 where
  no_golden : Why
  too_coarse too_little : List (Text × ℕ × ℕ) → Why
  by_majority : List (Text × ℕ × ℕ) → List (Text × ℕ) → Why
  agreed : List (Text × ℕ) → List (Text × ℕ × ℕ) → Why
  consensus : List Text → ℕ → Why
  coherent : List Text → ℕ → Why

abbrev pub sources_of : Evidence → List Text
sources_of [] = []
sources_of ((src, keys) ∷ e) = src ∷ sources_of e

abbrev pub all_covered : Evidence → List ℕ → List ℕ
all_covered [] seen = seen
all_covered ((src, keys) ∷ e) seen = all_covered e (covered_by keys seen)

-- The fingerprint of three sources or more, and of more than the others, outweighs a weak division.
unfoldable pub by_groups : List (Text × ℕ × ℕ) → List (Text × List Text) → Bool × Why
unfolding top_group others_than
by_groups weak [] = (false, too_little weak)
by_groups weak (g ∷ groups) =
    let top = top_group g groups in
    let others = others_than top.0 (g ∷ groups) in
    if leb 3 (length top.1) && ltb others (length top.1)
    then (true, consensus top.1 others)
    else (false, too_little weak)

-- The `if`s in their order: strong division, majority, strong agreement, weak division, agreement.
unfoldable pub judge :
    Evidence
    → List (Text × ℕ × ℕ)
    → List (Text × ℕ × ℕ)
    → List (Text × ℕ)
    → List (Text × ℕ × ℕ)
    → Bool × Why
unfolding by_groups groups_of
judge e (b ∷ bad) major ok_list weak = (false, too_coarse (b ∷ bad))
judge e [] (m ∷ major) ok_list weak = (true, by_majority (m ∷ major) ok_list)
judge e [] [] (s ∷ ok_list) weak = (true, agreed (s ∷ ok_list) weak)
judge e [] [] [] (w ∷ weak) = by_groups (w ∷ weak) (groups_of e [])
judge e [] [] [] [] = (true, coherent (sources_of e) (length (all_covered e [])))

unfoldable pub verdict : Evidence → Bool × Why
unfolding judge strong_ok
verdict [] = (false, no_golden)
verdict (s ∷ e) =
    judge (s ∷ e) (listed bad_of (s ∷ e)) (listed major_of (s ∷ e)) (strong_ok (s ∷ e))
      (listed weak_of (s ∷ e))

unfoldable pub segment_substitutable : Segment → List (ℕ × List (Text × Text)) → Bool × Why
unfolding verdict collect_evidence captures_from
segment_substitutable seg golden = verdict (collect_evidence (captures seg golden) [])
