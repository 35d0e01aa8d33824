-- ===== src/Segments/Lossless.antt =====
-- Segments of oracle/segments.py written out again, version by version.
use browserfp.Prelude.{
  ℕ, zero, suc, ◌+◌, ◌-◌, ◌≡◌, ◌≤◌, refl, sym, ap, ap₂, ◌∙◌, true, ◌&&◌, List, [], ◌∷◌, ◌++◌,
  append_assoc, append-nil, map, All, ◌==◌, Bool-cases, inl, inr, arith,
}
use browserfp.Prelude.Sort.{sort}
use browserfp.Text.{Text}
use browserfp.Match.Norm.{same_list}
use browserfp.Match.Answers.{same_list-eq}
use browserfp.Segments.Runs.{Segment, extend, segments_from, segment}

abbrev pub span : ℕ → ℕ → Text → List (ℕ × Text)
span from zero k = []
span from (suc n) k = (from, k) ∷ span (suc from) n k

-- The versions that segments stand for, each with its key.
abbrev pub expand : List Segment → List (ℕ × Text)
expand [] = []
expand (s ∷ ss) = span s.from (s.to + 1 - s.from) s.key ++ expand ss

abbrev IsUpright : Segment → Type 0
IsUpright s = s.from ≤ s.to

span-append : (from n : ℕ) (k : Text) → span from (suc n) k ≡ span from n k ++ ((from + n, k) ∷ [])
span-append from zero k = ap (λ m. (m, k) ∷ []) (omega arith)
span-append from (suc n) k =
    ap (λ r. (from, k) ∷ r)
      (span-append (suc from) n k ∙ ap (λ m. span (suc from) n k ++ ((m, k) ∷ [])) (omega arith))

module _ (key_of : ℕ → Text) where
  fresh-span : (v : ℕ) → span v (v + 1 - v) (key_of v) ++ [] ≡ (v, key_of v) ∷ []
  fresh-span v = let one : v + 1 - v ≡ 1 = omega arith in rw one refl

  longer :
      (s : Segment) (v : ℕ)
      → IsUpright s
      → s.key ≡ key_of v
      → v ≡ s.to + 1
      → span s.from (v + 1 - s.from) s.key
        ≡ span s.from (s.to + 1 - s.from) s.key ++ ((v, key_of v) ∷ [])
  longer s v u k e =
      let size : v + 1 - s.from ≡ suc (s.to + 1 - s.from) = omega arith in
      let last : s.from + (s.to + 1 - s.from) ≡ v = omega arith in
      ap (λ n. span s.from n s.key) size
      ∙ span-append s.from (s.to + 1 - s.from) s.key
      ∙ ap₂ (λ m t. span s.from (s.to + 1 - s.from) s.key ++ ((m, t) ∷ [])) last k

  both :
      (s : Segment) (v : ℕ)
      → (same_list s.key (key_of v) && v == s.to + 1) ≡ true
      → (s.key ≡ key_of v) × (v ≡ s.to + 1)
  both s v h = elim (Bool-cases (same_list s.key (key_of v))) [
    | inl e ↦ (same_list-eq s.key (key_of v) e, ground (arith, e, h))
    | inr n ↦ absurd (let q = rw n at h in cc)
  ]

  expand-extend :
      (segs : List Segment) (v : ℕ)
      → All IsUpright segs
      → expand (extend key_of segs v) ≡ expand segs ++ ((v, key_of v) ∷ [])
  unfolding extend
  expand-extend [] v u = fresh-span v
  expand-extend (s ∷ []) v u = elim (Bool-cases (same_list s.key (key_of v) && v == s.to + 1)) [
    | inl t ↦ let (k, e) = both s v t in rw (t, append-nil, append-nil) (longer s v u.0 k e)
    | inr n ↦ rw n (
        ap (λ r. span s.from (s.to + 1 - s.from) s.key ++ r) (fresh-span v)
        ∙ ap (λ r. r ++ ((v, key_of v) ∷ []))
            (sym (append-nil (span s.from (s.to + 1 - s.from) s.key))))
  ]
  expand-extend (s ∷ t ∷ rest) v u =
      ap (λ r. span s.from (s.to + 1 - s.from) s.key ++ r) (expand-extend (t ∷ rest) v u.1)
      ∙ sym (append_assoc (span s.from (s.to + 1 - s.from) s.key) (expand (t ∷ rest)) _)

  extend-IsUpright :
      (segs : List Segment) (v : ℕ) → All IsUpright segs → All IsUpright (extend key_of segs v)
  unfolding extend
  extend-IsUpright [] v u = (omega arith, tt)
  extend-IsUpright (s ∷ []) v u = elim (Bool-cases (same_list s.key (key_of v) && v == s.to + 1)) [
    | inl t ↦ let (k, e) = both s v t in let low : s.from ≤ s.to = u.0 in rw t ((omega arith), tt)
    | inr n ↦ rw n (u.0, (omega arith, tt))
  ]
  extend-IsUpright (s ∷ t ∷ rest) v u = (u.0, extend-IsUpright (t ∷ rest) v u.1)

  expand-segments_from :
      (segs : List Segment) (vs : List ℕ)
      → All IsUpright segs
      → expand (segments_from key_of segs vs) ≡ expand segs ++ map (λ v. (v, key_of v)) vs
  unfolding segments_from
  expand-segments_from segs [] u = sym (append-nil (expand segs))
  expand-segments_from segs (v ∷ vs) u =
      expand-segments_from (extend key_of segs v) vs (extend-IsUpright segs v u)
      ∙ ap (λ r. r ++ map (λ w. (w, key_of w)) vs) (expand-extend segs v u)
      ∙ append_assoc (expand segs) ((v, key_of v) ∷ []) (map (λ w. (w, key_of w)) vs)

  -- Written out, the segments are the versions in ascending order, each with its own key: none is
  -- lost or added, also where versions are missing between two.
  pub expand-segment :
      (versions : List ℕ)
      → expand (segment key_of versions) ≡ map (λ v. (v, key_of v)) (sort versions)
  unfolding segment
  expand-segment versions = expand-segments_from [] (sort versions) tt
