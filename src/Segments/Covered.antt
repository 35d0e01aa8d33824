-- ===== src/Segments/Covered.antt =====
-- How many versions and fingerprints a source of oracle/segments.py has, from single ones that it shows.
use mathlib.Core.Logic.{◌≢◌}
use browserfp.Prelude.{
  ℕ, ◌≤◌, ◌≡◌, sym, ◌∙◌, true, List, [], ◌∷◌, length, elem, ◌==◌, some, Bool-cases, inl, inr, arith,
}
use browserfp.Text.{Text}
use browserfp.Match.Norm.{same_list}
use browserfp.Match.Answers.{same_list-eq}
use browserfp.Keyed.{get_at}
use browserfp.Segments.Substitute.{Keys, add_version, union, covered_by}
use browserfp.Segments.Shown.{elem-add_version, elem-add_version_self}

union_seen : (v : ℕ) (vs seen : List ℕ) → elem v seen ≡ true → elem v (union vs seen) ≡ true
union_seen v [] seen h = h
union_seen v (w ∷ vs) seen h = union_seen v vs _ (elem-add_version v w seen h)

union_new : (v : ℕ) (vs seen : List ℕ) → elem v vs ≡ true → elem v (union vs seen) ≡ true
union_new v [] seen h = absurd (cc)
union_new v (w ∷ vs) seen h = elim (Bool-cases (v == w)) [
  | inl e ↦
      let same : v ≡ w = ground (arith, e) in
      union_seen v vs (add_version w seen) (rw (← same) (elem-add_version_self v seen))
  | inr n ↦ union_new v vs _ (rw n at h)
]

covered_seen :
    (v : ℕ) (keys : Keys) (seen : List ℕ)
    → elem v seen ≡ true
    → elem v (covered_by keys seen) ≡ true
covered_seen v [] seen h = h
covered_seen v ((key, vs) ∷ keys) seen h = covered_seen v keys _ (union_seen v vs seen h)

-- The versions of each fingerprint are among those that the source covers.
pub elem-covered_by :
    (v : ℕ) (keys : Keys) (seen vs : List ℕ) (key : Text)
    → get_at key keys ≡ some vs
    → elem v vs ≡ true
    → elem v (covered_by keys seen) ≡ true
unfolding get_at
elem-covered_by v [] seen vs key g h = absurd (cc)
elem-covered_by v ((j, ws) ∷ keys) seen vs key g h = elim (Bool-cases (same_list j key)) [
  | inl q ↦
      let found : some ws ≡ some vs = rw q at g in
      let same : ws ≡ vs = cc in covered_seen v keys _ (union_new v ws seen (rw same h))
  | inr n ↦ elem-covered_by v keys _ vs key (rw n at g) h
]

one_in : (a : ℕ) (xs : List ℕ) → elem a xs ≡ true → 1 ≤ length xs
one_in a [] h = absurd (cc)
one_in a (x ∷ xs) h = omega arith

two_in : (a b : ℕ) (xs : List ℕ) → a ≢ b → elem a xs ≡ true → elem b xs ≡ true → 2 ≤ length xs
two_in a b [] d h k = absurd (cc)
two_in a b (x ∷ xs) d h k = ground (arith, one_in a xs, one_in b xs)

-- Three different numbers are in no list of fewer.
pub three_in :
    (a b c : ℕ) (xs : List ℕ)
    → a ≢ b
    → a ≢ c
    → b ≢ c
    → elem a xs ≡ true
    → elem b xs ≡ true
    → elem c xs ≡ true
    → 3 ≤ length xs
three_in a b c [] d e f h k l = absurd (cc)
three_in a b c (x ∷ xs) d e f h k l =
    ground (arith, two_in a b xs d, two_in a c xs e, two_in b c xs f, three_in a b c xs d e f)

-- A source with two fingerprints does not have one.
pub two_keys :
    (keys : Keys) (a b : Text) (vs ws : List ℕ)
    → a ≢ b
    → get_at a keys ≡ some vs
    → get_at b keys ≡ some ws
    → length keys ≢ 1
unfolding get_at
two_keys [] a b vs ws d g h n = cc
two_keys ((j, us) ∷ []) a b vs ws d g h n = elim (Bool-cases (same_list j a)) [
  | inr m ↦ (let q = rw m at g in cc)
  | inl e ↦ elim (Bool-cases (same_list j b)) [
    | inr m ↦ (let q = rw m at h in cc)
    | inl f ↦ d (sym (same_list-eq j a e) ∙ same_list-eq j b f)
  ]
]
two_keys (x ∷ y ∷ keys) a b vs ws d g h n = omega arith
