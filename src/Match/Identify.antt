-- ===== src/Match/Identify.antt =====
-- Proofs about `identify` of oracle/match.py.
use mathlib.Core.Logic.{◌≢◌}
use browserfp.Prelude.{
  ℕ, ◌≡◌, ◌≤◌, inl, inr, refl, sym, ap, ap₂, subst, ◌∙◌, true, false, List, [], ◌∷◌, ltb, some,
  none, Option-cases, Bool-cases, ok, arith,
}
use browserfp.Text.{Text}
use browserfp.ClientHello.Fingerprint.{Fingerprint}
use browserfp.Match.Norm.{Norm, norm, diff}
use browserfp.Match.Matcher.{
  Entry, Confidence, Answer, get, index_from, distance, nearest_from, nearest, answer, identify,
}
use browserfp.Match.Answers.{IsIn, index_found, index_source}

hit_eq : {r s : Entry} {c d : Confidence} → ok (Answer.hit r c) ≡ ok (Answer.hit s d) → r ≡ s
hit_eq h = cc

not_hit :
    (target : Norm) (rs : List Entry) (r : Entry) (c : Confidence)
    → nearest target rs ≢ ok (Answer.hit r c)
unfolding nearest
not_hit target [] r c h = cc
not_hit target (s ∷ rs) r c h = cc

least :
    (target : Norm) (best : Entry) (rs : List Entry) (e : Entry)
    → IsIn e (best ∷ rs)
    → distance target (nearest_from target best rs) ≤ distance target e
unfolding nearest_from
least target best [] e (inl q) = rw q (omega arith)
least target best [] e (inr i) = absurd i
least target best (r ∷ rs) e i =
    elim (Bool-cases (ltb (distance target r) (distance target best))) [
      | inl closer ↦ elim i [
        | inl q ↦
            let n = least target r rs r (inl refl) in rw (q, closer) (ground (arith, closer, n))
        | inr j ↦ rw closer (least target r rs e j)
      ]
      | inr same ↦ elim i [
        | inl q ↦ rw same (least target best rs e (inl q))
        | inr (inl q) ↦
            let n = least target best rs best (inl refl) in rw (q, same) (ground (arith, same, n))
        | inr (inr j) ↦ rw same (least target best rs e (inr j))
      ]
    ]

hit_unknown :
    {r s : Entry} {c : Confidence} {n : ℕ} {fields : List Text}
    → ok (Answer.hit r c) ≢ ok (Answer.unknown s n fields)
hit_unknown h = cc

other_hit :
    {r s : Entry} → ok (Answer.hit r Confidence.exact_no_pad) ≢ ok (Answer.hit s Confidence.exact)
other_hit h = cc

none-some : {r : Entry} → none ≢ some r
none-some h = cc

nothing : (k : Text) (s : Entry) → get k [] ≢ some s
unfolding get
nothing k s h = cc

nearest_from_closer :
    (target : Norm) (best r : Entry) (rs : List Entry)
    → ltb (distance target r) (distance target best) ≡ true
    → nearest_from target best (r ∷ rs) ≡ nearest_from target r rs
unfolding nearest_from
nearest_from_closer target best r rs e = rw e refl

nearest_from_same :
    (target : Norm) (best r : Entry) (rs : List Entry)
    → ltb (distance target r) (distance target best) ≡ false
    → nearest_from target best (r ∷ rs) ≡ nearest_from target best rs
unfolding nearest_from
nearest_from_same target best r rs e = rw e refl

widen : (e b s : Entry) (es : List Entry) → IsIn e (b ∷ es) → IsIn e (b ∷ s ∷ es)
widen e b s es (inl q) = inl q
widen e b s es (inr i) = inr (inr i)

-- The record found is one of those looked at.
nearest_from-IsIn :
    (target : Norm) (best : Entry) (rs : List Entry)
    → IsIn (nearest_from target best rs) (best ∷ rs)
unfolding nearest_from
nearest_from-IsIn target best [] = inl refl
nearest_from-IsIn target best (r ∷ rs) =
    elim (Bool-cases (ltb (distance target r) (distance target best))) [
      | inl closer ↦
          subst (λ t. IsIn t (best ∷ r ∷ rs)) (sym (nearest_from_closer target best r rs closer))
            (inr (nearest_from-IsIn target r rs))
      | inr same ↦
          subst (λ t. IsIn t (best ∷ r ∷ rs)) (sym (nearest_from_same target best r rs same))
            (widen _ best r rs (nearest_from-IsIn target best rs))
    ]

-- What an answer about the nearest says: the record is of the registry, none is nearer, and the count
-- and the fields are of this record.
abbrev IsNearest : Norm → List Entry → Entry → Entry → ℕ → List Text → Type 0
IsNearest target registry e r n fields =
    IsIn r registry
    × (distance target r ≤ distance target e)
    × (n ≡ distance target r)
    × (fields ≡ diff target (norm r.tls true))

unknown_eq :
    {r s : Entry} {n m : ℕ} {fs gs : List Text}
    → ok (Answer.unknown s m gs) ≡ ok (Answer.unknown r n fs)
    → (s ≡ r) × (n ≡ m) × (fs ≡ gs)
unknown_eq h = (cc, cc, cc)

nearest-IsNearest :
    (target : Norm) (rs : List Entry) (r e : Entry) (n : ℕ) (fields : List Text)
    → nearest target rs ≡ ok (Answer.unknown r n fields)
    → IsIn e rs
    → IsNearest target rs e r n fields
unfolding nearest
nearest-IsNearest target [] r e n fields h i = absurd i
nearest-IsNearest target (s ∷ rs) r e n fields h i =
    let (same, count, differ) = unknown_eq h in
    (
      subst (λ t. IsIn t (s ∷ rs)) same (nearest_from-IsIn target s rs),
      subst (λ t. distance target t ≤ distance target e) same (least target s rs e i),
      count ∙ ap (distance target) same,
      differ ∙ ap (λ (t : Entry). diff target (norm t.tls true)) same,
    )

module _ (dumps : Norm → Text) (registry : List Entry) where
  identify_hit :
      (fp : Fingerprint) (r : Entry)
      → get (dumps (norm fp false)) (index_from dumps false [] registry) ≡ some r
      → identify dumps registry fp ≡ ok (Answer.hit r Confidence.exact)
  unfolding identify answer
  identify_hit fp r g =
      ap
        (λ o.
          answer (norm fp true) registry o
            (get (dumps (norm fp true)) (index_from dumps true [] registry)))
        g

  identify_no_pad :
      (fp : Fingerprint) (r : Entry)
      → get (dumps (norm fp false)) (index_from dumps false [] registry) ≡ none
      → get (dumps (norm fp true)) (index_from dumps true [] registry) ≡ some r
      → identify dumps registry fp ≡ ok (Answer.hit r Confidence.exact_no_pad)
  unfolding identify answer
  identify_no_pad fp r n g = ap₂ (λ o u. answer (norm fp true) registry o u) n g

  identify-none :
      (fp : Fingerprint)
      → get (dumps (norm fp false)) (index_from dumps false [] registry) ≡ none
      → get (dumps (norm fp true)) (index_from dumps true [] registry) ≡ none
      → identify dumps registry fp ≡ nearest (norm fp true) registry
  unfolding identify answer
  identify-none fp n m = ap₂ (λ o u. answer (norm fp true) registry o u) n m

  -- The own fingerprint of each record of the registry is answered with an exact hit.
  pub identify_self :
      (e : Entry)
      → IsIn e registry
      → (r : Entry) × (identify dumps registry e.tls ≡ ok (Answer.hit r Confidence.exact))
  unfolding identify
  identify_self e i =
      let (r, g) = index_found dumps false e [] registry i in (r, identify_hit e.tls r g)

  -- When no record of the registry has the fingerprint's JSON text but another normal form, an exact
  -- answer names a record of the registry with the normal form of the fingerprint.
  pub identify-exact :
      (fp : Fingerprint) (r : Entry)
      (distinct : (e : Entry)
        → IsIn e registry
        → dumps (norm e.tls false) ≡ dumps (norm fp false)
        → norm e.tls false ≡ norm fp false)
      → identify dumps registry fp ≡ ok (Answer.hit r Confidence.exact)
      → IsIn r registry × (norm r.tls false ≡ norm fp false)
  identify-exact fp r distinct h =
      elim (Option-cases (get (dumps (norm fp false)) (index_from dumps false [] registry))) [
        | inr (s, g) ↦
            let same : s ≡ r = hit_eq (sym (identify_hit fp s g) ∙ h) in
            elim (index_source dumps false (dumps (norm fp false)) s [] registry g) [
              | inl empty ↦ absurd (nothing _ s empty)
              | inr (i, q) ↦
                  subst (λ t. IsIn t registry × (norm t.tls false ≡ norm fp false)) same
                    (i, distinct s i q)
            ]
        | inl n ↦
            elim (Option-cases (get (dumps (norm fp true)) (index_from dumps true [] registry))) [
              | inr (s, g) ↦ absurd (other_hit (sym (identify_no_pad fp s n g) ∙ h))
              | inl m ↦ absurd (
                  not_hit (norm fp true) registry r Confidence.exact
                    (sym (identify-none fp n m) ∙ h))
            ]
      ]

  -- When the answer is unknown, no record of the registry has the normal form of the fingerprint without
  -- padding, the record that the answer names is one of the registry, none of the registry differs from
  -- the fingerprint in fewer fields than it does, and the count and the fields that the answer gives are
  -- those in which this record differs.
  pub identify-unknown :
      (fp : Fingerprint) (r e : Entry) (n : ℕ) (fields : List Text)
      → identify dumps registry fp ≡ ok (Answer.unknown r n fields)
      → IsIn e registry
      → (norm e.tls true ≢ norm fp true)
        × IsIn r registry
        × (distance (norm fp true) r ≤ distance (norm fp true) e)
        × (n ≡ distance (norm fp true) r)
        × (fields ≡ diff (norm fp true) (norm r.tls true))
  identify-unknown fp r e n fields h i =
      elim (Option-cases (get (dumps (norm fp false)) (index_from dumps false [] registry))) [
        | inr (s, g) ↦ absurd (hit_unknown (sym (identify_hit fp s g) ∙ h))
        | inl a ↦
            elim (Option-cases (get (dumps (norm fp true)) (index_from dumps true [] registry))) [
              | inr (s, g) ↦ absurd (hit_unknown (sym (identify_no_pad fp s a g) ∙ h))
              | inl b ↦
                  let (place, least_of, count, differ) =
                    nearest-IsNearest (norm fp true) registry r e n fields
                      (sym (identify-none fp a b) ∙ h) i in
                  (
                    (λ same.
                        let (s, g) = index_found dumps true e [] registry i in
                        absurd (
                          none-some (
                            sym b
                            ∙ ap (λ t. get (dumps t) (index_from dumps true [] registry)) (sym same)
                            ∙ g))),
                    place,
                    least_of,
                    count,
                    differ,
                  )
            ]
      ]
