-- ===== src/Segments/Coherent.antt =====
-- When `segment_substitutable` of oracle/segments.py passes a segment with a source that is not uniform.
use mathlib.Core.List.{Memᴰ}
use mathlib.Core.Logic.{◌≢◌}
use browserfp.Prelude.{
  ℕ, ◌≤◌, ◌<◌, ◌-◌, ◌*◌, ◌&&◌, ◌==◌, ◌⊎◌, length, ltb, arith, ◌≡◌, refl, sym, subst, ◌∙◌, true,
  List, [], ◌∷◌, All, leb, some, Bool-cases, inl, inr, le→leb,
}
use browserfp.Text.{Text}
use browserfp.Keyed.{get_at, Every, Every-get_at, total}
use browserfp.Segments.Runs.{Segment}
use browserfp.Segments.Substitute.{
  Keys, Evidence, captures, collect_evidence, covered_by, version_count, largest, size_sum, Class,
  consistent, majority, divided, class_of, bad_of, listed, judge, verdict, segment_substitutable,
}
use browserfp.Segments.Shown.{collect_evidence-IsShown}
use browserfp.Segments.Captured.{
  IsNodup, IsCaptured, collect_evidence-IsCaptured, Every-member, members_in,
}
use browserfp.Segments.Covered.{elem-covered_by, three_in, two_keys}

-- A source that is said to be divided over three versions or more.
abbrev IsDivided : Class → Type 0
IsDivided (divided k n) = 3 ≤ n
IsDivided _ = ⊥

-- A fingerprint of three versions or more, and of more than all the others together.
abbrev HasMajority : Keys → Type 0
HasMajority keys =
    (key : Text) × (vs : List ℕ) × Memᴰ (key, vs) keys
    × (3 ≤ length vs)
    × (total (λ ws. length ws) keys < 2 * length vs)

total-eq-size_sum : (keys : Keys) → total (λ ws. length ws) keys ≡ size_sum keys
total-eq-size_sum [] = refl
total-eq-size_sum ((key, vs) ∷ keys) = omega (arith, total-eq-size_sum keys)

-- What a source of a segment may show: one fingerprint, or few versions, or a majority.
abbrev IsCoherent : Text → Keys → Type 0
IsCoherent src keys = (length keys ≡ 1) ⊎ (version_count keys < 3) ⊎ HasMajority keys

largest_attained :
    (keys : Keys)
    → 3 ≤ largest keys
    → (key : Text) × (vs : List ℕ) × Memᴰ (key, vs) keys × (largest keys ≡ length vs)
largest_attained [] h = absurd (omega arith)
largest_attained ((key, vs) ∷ keys) h = elim (Bool-cases (leb (largest keys) (length vs))) [
  | inl e ↦ (key, vs, Memᴰ.head refl, ground (arith, e))
  | inr n ↦
      let (k, ws, m, q) = largest_attained keys (ground (arith, n, h)) in
      (k, ws, Memᴰ.tail m, ground (arith, n, q))
]

class_of-IsCoherent : (src : Text) (keys : Keys) → ¬ IsDivided (class_of keys) → IsCoherent src keys
unfolding class_of
class_of-IsCoherent src keys h = elim (Bool-cases (length keys == 1)) [
  | inl one ↦ inl (ground (arith, one))
  | inr several ↦ inr (elim (Bool-cases (leb 3 (version_count keys))) [
    | inr few ↦ inl (ground (arith, few))
    | inl many ↦
        inr
          (elim (Bool-cases
            (ltb (size_sum keys - largest keys) (largest keys) && leb 3 (largest keys))) [
              | inl major ↦
                  let (key, vs, m, q) = largest_attained keys (ground (arith, major)) in
                  (
                    key,
                    vs,
                    m,
                    ground (arith, major, q),
                    ground (arith, major, q, total-eq-size_sum keys),
                  )
              | inr split ↦ absurd (let g = rw (several, split) at h in g (ground (arith, many)))
            ])
  ])
]

some_eq : {j k : Keys} → some j ≡ some k → j ≡ k
some_eq h = cc

divided_majority :
    (src : Text) (keys : Keys)
    → length keys ≢ 1
    → 3 ≤ version_count keys
    → IsCoherent src keys
    → HasMajority keys
divided_majority src keys d many (inl one) = absurd (d one)
divided_majority src keys d many (inr (inl few)) = absurd (omega (arith, many, few))
divided_majority src keys d many (inr (inr m)) = m

judge_strong :
    (e : Evidence) (bad major : List (Text × ℕ × ℕ)) (ok_list : List (Text × ℕ))
    (weak : List (Text × ℕ × ℕ))
    → (judge e bad major ok_list weak).0 ≡ true
    → bad ≡ []
unfolding judge
judge_strong e [] major ok_list weak h = refl
judge_strong e (b ∷ bad) major ok_list weak h = absurd (cc)

bad_of-IsDivided :
    (src : Text) (c : Class) (rest : List (Text × ℕ × ℕ))
    → bad_of src c rest ≡ []
    → (¬ IsDivided c) × (rest ≡ [])
bad_of-IsDivided src (consistent n) rest h = ((λ d. d), h)
bad_of-IsDivided src (majority a b) rest h = ((λ d. d), h)
bad_of-IsDivided src (divided k n) rest h = elim (Bool-cases (leb 3 n)) [
  | inl e ↦ absurd (let q : (src, k, n) ∷ rest ≡ [] = rw e at h in cc)
  | inr e ↦ ((λ le. (let q = le→leb 3 n le in cc)), rw e at h)
]

listed-IsCoherent : (e : Evidence) → listed bad_of e ≡ [] → Every IsCoherent e
listed-IsCoherent [] h = tt
listed-IsCoherent ((src, keys) ∷ e) h =
    let (one, rest) = bad_of-IsDivided src (class_of keys) (listed bad_of e) h in
    (class_of-IsCoherent src keys one, listed-IsCoherent e rest)

verdict-IsCoherent : (e : Evidence) → (verdict e).0 ≡ true → Every IsCoherent e
unfolding verdict
verdict-IsCoherent [] h = tt
verdict-IsCoherent (s ∷ e) h = listed-IsCoherent (s ∷ e) (judge_strong (s ∷ e) _ _ _ _ h)

-- When a segment passes, and three captures of one source in it have three different versions and not all
-- the same fingerprint (the first two differ), then the evidence about this source has a fingerprint of
-- three versions or more, and of more than all its others together, and these are different versions of
-- captures of the source that show this fingerprint.
pub segment_substitutable-HasMajority :
    (seg : Segment) (golden : List (ℕ × List (Text × Text))) (src : Text) (v w u : ℕ) (a b c : Text)
    → (segment_substitutable seg golden).0 ≡ true
    → Memᴰ (v, src, a) (captures seg golden)
    → Memᴰ (w, src, b) (captures seg golden)
    → Memᴰ (u, src, c) (captures seg golden)
    → v ≢ w
    → v ≢ u
    → w ≢ u
    → a ≢ b
    → (keys : Keys) × (key : Text) × (vs : List ℕ) × (get_at src
          (collect_evidence (captures seg golden) [])
        ≡ some keys)
      × Memᴰ (key, vs) keys
      × (3 ≤ length vs)
      × (total (λ ws. length ws) keys < 2 * length vs)
      × All (λ x. Memᴰ (x, src, key) (captures seg golden)) vs
      × IsNodup vs
unfolding segment_substitutable
segment_substitutable-HasMajority seg golden src v w u a b c h mv mw mu vw vu wu ab =
    let found = captures seg golden in
    let (keys, vs, g, ga, hv) = collect_evidence-IsShown found [] v src a mv in
    let (keys_w, ws, gw, gb, hw) = collect_evidence-IsShown found [] w src b mw in
    let (keys_u, us, gu, gc, hu) = collect_evidence-IsShown found [] u src c mu in
    let same_w : keys_w ≡ keys = some_eq (sym gw ∙ g) in
    let same_u : keys_u ≡ keys = some_eq (sym gu ∙ g) in
    let kb = subst (λ k. get_at b k ≡ some ws) same_w gb in
    let kc = subst (λ k. get_at c k ≡ some us) same_u gc in
    let many =
      three_in v w u (covered_by keys []) vw vu wu (elem-covered_by v keys [] vs a ga hv)
        (elem-covered_by w keys [] ws b kb hw) (elem-covered_by u keys [] us c kc hu) in
    let (key, top, m, three, more) =
      divided_majority src keys (two_keys keys a b vs ws ab ga kb) many
        (Every-get_at IsCoherent src keys _ (verdict-IsCoherent _ h) g) in
    let (seen, once) = Every-member found src key top keys m (
      Every-get_at (λ s. Every (IsCaptured found s)) src keys _
        (collect_evidence-IsCaptured found found [] (members_in found found (λ x n. n)) tt) g) in
    (keys, key, top, g, m, three, more, seen, once)
