-- ===== src/Segments/Shown.antt =====
-- What the loops of `segment_substitutable` of oracle/segments.py gather from one capture.
use mathlib.Core.List.{Memᴰ}
use mathlib.Core.List.Memᴰ
use browserfp.Prelude.{
  ℕ, ◌≡◌, refl, sym, ap, subst, ◌∙◌, true, List, [], ◌∷◌, ◌++◌, elem, ◌==◌, some, get_or,
  Bool-cases, inl, inr, ==_refl,
}
use browserfp.Text.{Text}
use browserfp.Match.Norm.{same_list}
use browserfp.Match.Answers.{same_list-eq}
use browserfp.Keyed.{get_at, modify, get_at-modify, get_at-modify_other}
use browserfp.Segments.Substitute.{
  Keys, Evidence, Capture, add_version, noted_key, collect_evidence,
}

-- The evidence has the version under the source and the fingerprint.
abbrev pub IsShown : Evidence → ℕ → Text → Text → Type 0
IsShown e v src key =
    (keys : Keys) × (vs : List ℕ) × (get_at src e ≡ some keys)
    × (get_at key keys ≡ some vs)
    × (elem v vs ≡ true)

elem-append_left : (v : ℕ) (xs ys : List ℕ) → elem v xs ≡ true → elem v (xs ++ ys) ≡ true
elem-append_left v [] ys h = absurd (cc)
elem-append_left v (x ∷ xs) ys h = elim (Bool-cases (v == x)) [
  | inl e ↦ rw e refl
  | inr n ↦ rw n (elem-append_left v xs ys (rw n at h))
]

elem-append_last : (v : ℕ) (xs : List ℕ) → elem v (xs ++ (v ∷ [])) ≡ true
elem-append_last v [] = rw (==_refl v) refl
elem-append_last v (x ∷ xs) = elim (Bool-cases (v == x)) [
  | inl e ↦ rw e refl
  | inr n ↦ rw n (elem-append_last v xs)
]

pub elem-add_version : (v w : ℕ) (vs : List ℕ) → elem v vs ≡ true → elem v (add_version w vs) ≡ true
elem-add_version v w vs h = elim (Bool-cases (elem w vs)) [
  | inl e ↦ rw e h
  | inr n ↦ rw n (elem-append_left v vs (w ∷ []) h)
]

pub elem-add_version_self : (v : ℕ) (vs : List ℕ) → elem v (add_version v vs) ≡ true
elem-add_version_self v vs = elim (Bool-cases (elem v vs)) [
  | inl e ↦ rw e e
  | inr n ↦ rw n (elem-append_last v vs)
]

-- A capture is shown once it is noted.
noted-IsShown :
    (e : Evidence) (v : ℕ) (src key : Text) → IsShown (modify src (noted_key v key) e) v src key
noted-IsShown e v src key = (
  noted_key v key (get_at src e),
  add_version v (get_or [] (get_at key (get_or [] (get_at src e)))),
  get_at-modify src (noted_key v key) e,
  get_at-modify key (λ o. add_version v (get_or [] o)) (get_or [] (get_at src e)),
  elem-add_version_self v _,
)

-- Noting another version keeps it in the fingerprints of its source.
keys-kept :
    (keys : Keys) (vs : List ℕ) (v w : ℕ) (key other : Text)
    → get_at key keys ≡ some vs
    → elem v vs ≡ true
    → (ws : List ℕ) × (get_at key (modify other (λ o. add_version w (get_or [] o)) keys) ≡ some ws)
      × (elem v ws ≡ true)
keys-kept keys vs v w key other g h = elim (Bool-cases (same_list other key)) [
  | inr n ↦ (vs, get_at-modify_other other key (λ o. add_version w (get_or [] o)) keys n ∙ g, h)
  | inl q ↦ (
    add_version w vs,
    subst
        (λ t.
          get_at key (modify t (λ o. add_version w (get_or [] o)) keys) ≡ some (add_version w vs))
        (sym (same_list-eq other key q))
        (get_at-modify key (λ o. add_version w (get_or [] o)) keys
          ∙ ap (λ o. some (add_version w (get_or [] o))) g),
    elem-add_version v w vs h,
  )
]

modify-IsShown :
    (e : Evidence) (v w : ℕ) (src key from other : Text)
    → IsShown e v src key
    → IsShown (modify from (noted_key w other) e) v src key
modify-IsShown e v w src key from other (keys, vs, g, k, h) =
    elim (Bool-cases (same_list from src)) [
      | inr n ↦ (keys, vs, get_at-modify_other from src (noted_key w other) e n ∙ g, k, h)
      | inl q ↦
          let (ws, l, m) = keys-kept keys vs v w key other k h in
          (
            noted_key w other (some keys),
            ws,
            subst
                (λ t.
                  get_at src (modify t (noted_key w other) e)
                  ≡ some (noted_key w other (some keys)))
                (sym (same_list-eq from src q))
                (get_at-modify src (noted_key w other) e ∙ ap (λ o. some (noted_key w other o)) g),
            l,
            m,
          )
    ]

collect_kept :
    (found : List Capture) (e : Evidence) (v : ℕ) (src key : Text)
    → IsShown e v src key
    → IsShown (collect_evidence found e) v src key
unfolding collect_evidence
collect_kept [] e v src key h = h
collect_kept ((w, from, other) ∷ found) e v src key h =
    collect_kept found _ v src key (modify-IsShown e v w src key from other h)

-- Every capture is shown in the evidence that is collected.
pub collect_evidence-IsShown :
    (found : List Capture) (e : Evidence) (v : ℕ) (src key : Text)
    → Memᴰ (v, src, key) found
    → IsShown (collect_evidence found e) v src key
unfolding collect_evidence
collect_evidence-IsShown [] e v src key m = absurd (Memᴰ.not-nil m)
collect_evidence-IsShown ((w, from, other) ∷ found) e v src key m = elim (Memᴰ.cases_cons m) [
  | inl q ↦ collect_kept found _ v src key (
      subst (λ (c : Capture). IsShown (modify c.1 (noted_key c.0 c.2) e) v src key) q
        (noted-IsShown e v src key))
  | inr n ↦ collect_evidence-IsShown found _ v src key n
]
