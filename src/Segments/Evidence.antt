-- ===== src/Segments/Evidence.antt =====
-- `segment_substitutable` of oracle/segments.py where each source shows one fingerprint.
use browserfp.Prelude.{
  ℕ, ◌≡◌, refl, ap, ◌∙◌, true, List, [], ◌∷◌, Option, some, All, Bool-cases, inl, inr,
}
use mathlib.Core.Logic.{◌≢◌}
use browserfp.Text.{Text}
use browserfp.Match.Norm.{same_list}
use browserfp.Keyed.{modify, Every, Every-modify, same_list_self}
use browserfp.Segments.Runs.{Segment}
use browserfp.Segments.Substitute.{
  Keys, Evidence, Capture, add_version, captures, noted_key, collect_evidence, version_count, Class,
  consistent, class_of, bad_of, weak_of, major_of, listed, judge, verdict, segment_substitutable,
}

module _ (of_source : Text → Text) where
  abbrev IsUniform : Text → Keys → Type 0
  IsUniform src keys = (vs : List ℕ) × (keys ≡ (of_source src, vs) ∷ [])

  collect_evidence-IsUniform :
      (found : List Capture) (e : Evidence)
      → All (λ c. c.2 ≡ of_source c.1) found
      → Every IsUniform e
      → Every IsUniform (collect_evidence found e)
  unfolding collect_evidence modify
  collect_evidence-IsUniform [] e h u = u
  collect_evidence-IsUniform ((v, src, key) ∷ found) e h u =
      collect_evidence-IsUniform found _ h.1 (
        Every-modify IsUniform src (noted_key v key) e
          (add_version v [], ap (λ k. (k, add_version v []) ∷ []) h.0)
          (λ keys (vs, q). (
            add_version v vs,
            ap (λ t. noted_key v t (some keys)) h.0
                ∙ ap (λ t. noted_key v (of_source src) (some t)) q
                ∙ again v (of_source src) vs,
          ))
          u)
    where
      again :
          (v : ℕ) (k : Text) (vs : List ℕ)
          → noted_key v k (some ((k, vs) ∷ [])) ≡ (k, add_version v vs) ∷ []
      again v k vs = rw (same_list_self k) refl

  -- No list of divisions has an entry.
  one_key :
      (src : Text) (keys : Keys) → IsUniform src keys → (n : ℕ) × (class_of keys ≡ consistent n)
  unfolding class_of
  one_key src keys (vs, q) = (version_count ((of_source src, vs) ∷ []), ap class_of q ∙ refl)

  listed_none :
      (which : Text → Class → List (Text × ℕ × ℕ) → List (Text × ℕ × ℕ))
      → ((src : Text) (n : ℕ) (rest : List (Text × ℕ × ℕ)) → which src (consistent n) rest ≡ rest)
      → (e : Evidence) → Every IsUniform e
      → listed which e ≡ []
  listed_none which skip [] u = refl
  listed_none which skip ((src, keys) ∷ e) u =
      let (n, q) = one_key src keys u.0 in
      ap (λ c. which src c (listed which e)) q
      ∙ skip src n (listed which e)
      ∙ listed_none which skip e u.1

  judge_uniform :
      (e : Evidence) (bad major : List (Text × ℕ × ℕ)) (ok_list : List (Text × ℕ))
      (weak : List (Text × ℕ × ℕ))
      → bad ≡ []
      → major ≡ []
      → weak ≡ []
      → (judge e bad major ok_list weak).0 ≡ true
  unfolding judge
  judge_uniform e [] [] [] [] hb hm hw = refl
  judge_uniform e [] [] (s ∷ ok_list) [] hb hm hw = refl
  judge_uniform e (b ∷ bad) major ok_list weak hb hm hw = absurd (cc)
  judge_uniform e [] (m ∷ major) ok_list weak hb hm hw = absurd (cc)
  judge_uniform e [] [] ok_list (w ∷ weak) hb hm hw = absurd (cc)

  verdict_uniform : (e : Evidence) → Every IsUniform e → e ≢ [] → (verdict e).0 ≡ true
  unfolding verdict
  verdict_uniform [] u h = absurd (h refl)
  verdict_uniform (s ∷ e) u h =
      judge_uniform (s ∷ e) _ _ _ _ (listed_none bad_of (λ src n rest. refl) (s ∷ e) u)
        (listed_none major_of (λ src n rest. refl) (s ∷ e) u)
        (listed_none weak_of (λ src n rest. refl) (s ∷ e) u)

  modify_some : (k : Text) (f : Option Keys → Keys) (e : Evidence) → modify k f e ≢ []
  unfolding modify
  modify_some k f [] h = cc
  modify_some k f ((j, v) ∷ e) h = elim (Bool-cases (same_list j k)) [
    | inl q ↦ (let r = rw q at h in cc)
    | inr q ↦ (let r = rw q at h in cc)
  ]

  collect_some : (found : List Capture) (e : Evidence) → e ≢ [] → collect_evidence found e ≢ []
  unfolding collect_evidence
  collect_some [] e h = h
  collect_some ((v, src, key) ∷ found) e h =
      collect_some found (modify src (noted_key v key) e) (modify_some src (noted_key v key) e)

  collect_any : (found : List Capture) → found ≢ [] → collect_evidence found [] ≢ []
  unfolding collect_evidence
  collect_any [] h = absurd (h refl)
  collect_any ((v, src, key) ∷ found) h =
      collect_some found (modify src (noted_key v key) []) (modify_some src (noted_key v key) [])

  -- A segment passes if there are captures of its versions and each source shows one fingerprint in all
  -- of them; sources may differ.
  pub segment_substitutable_uniform :
      (seg : Segment) (golden : List (ℕ × List (Text × Text)))
      → All (λ c. c.2 ≡ of_source c.1) (captures seg golden)
      → captures seg golden ≢ []
      → (segment_substitutable seg golden).0 ≡ true
  unfolding segment_substitutable
  segment_substitutable_uniform seg golden h some_found =
      verdict_uniform _ (collect_evidence-IsUniform (captures seg golden) [] h tt)
        (collect_any (captures seg golden) some_found)
