-- ===== src/Segments/Captured.antt =====
-- That the loops of `segment_substitutable` of oracle/segments.py gather nothing but captures, each once.
use mathlib.Core.List.{Memᴰ}
use mathlib.Core.List.Memᴰ
use browserfp.Prelude.{
  ℕ, ◌≡◌, refl, sym, subst, false, ◌==◌, List, [], ◌∷◌, ◌++◌, elem, some, get_or, All, All-append,
  Bool-cases, inl, inr, arith,
}
use browserfp.Text.{Text}
use browserfp.Keyed.{Every, Every-modify}
use browserfp.Segments.Substitute.{
  Keys, Evidence, Capture, add_version, noted_key, collect_evidence,
}

-- No version is listed twice.
abbrev pub IsNodup : List ℕ → Type 0
IsNodup [] = Unit
IsNodup (v ∷ vs) = (elem v vs ≡ false) × IsNodup vs

elem-append_other :
    (v w : ℕ) (vs : List ℕ) → (v == w) ≡ false → elem v vs ≡ false → elem v (vs ++ (w ∷ [])) ≡ false
elem-append_other v w [] d h = rw d refl
elem-append_other v w (x ∷ vs) d h = elim (Bool-cases (v == x)) [
  | inl e ↦ absurd (let q = rw e at h in cc)
  | inr n ↦ rw n (elem-append_other v w vs d (rw n at h))
]

append-IsNodup : (v : ℕ) (vs : List ℕ) → elem v vs ≡ false → IsNodup vs → IsNodup (vs ++ (v ∷ []))
append-IsNodup v [] h s = (refl, tt)
append-IsNodup v (x ∷ vs) h s = elim (Bool-cases (v == x)) [
  | inl e ↦ absurd (let q = rw e at h in cc)
  | inr n ↦ (elem-append_other x v vs (ground (arith, n)) s.0, append-IsNodup v vs (rw n at h) s.1)
]

module _ (whole : List Capture) where
  -- The versions of a fingerprint of a source are versions of its captures, each once.
  abbrev pub IsCaptured : Text → Text → List ℕ → Type 0
  IsCaptured src key vs = All (λ v. Memᴰ (v, src, key) whole) vs × IsNodup vs

  add_version-IsCaptured :
      (v : ℕ) (src key : Text) (vs : List ℕ)
      → Memᴰ (v, src, key) whole
      → IsCaptured src key vs
      → IsCaptured src key (add_version v vs)
  add_version-IsCaptured v src key vs m (h, s) = elim (Bool-cases (elem v vs)) [
    | inl e ↦ rw e (h, s)
    | inr n ↦
        rw n (
          All-append (λ w. Memᴰ (w, src, key) whole) vs (v ∷ []) h (m, tt),
          append-IsNodup v vs n s,
        )
  ]

  noted-IsCaptured :
      (v : ℕ) (src key : Text) (keys : Keys)
      → Memᴰ (v, src, key) whole
      → Every (IsCaptured src) keys
      → Every (IsCaptured src) (noted_key v key (some keys))
  noted-IsCaptured v src key keys m h =
      Every-modify (IsCaptured src) key (λ o. add_version v (get_or [] o)) keys
        (add_version-IsCaptured v src key [] m (tt, tt))
        (λ vs. add_version-IsCaptured v src key vs m) h

  pub collect_evidence-IsCaptured :
      (found : List Capture) (e : Evidence)
      → All (λ c. Memᴰ c whole) found
      → Every (λ src keys. Every (IsCaptured src) keys) e
      → Every (λ src keys. Every (IsCaptured src) keys) (collect_evidence found e)
  unfolding collect_evidence
  collect_evidence-IsCaptured [] e h u = u
  collect_evidence-IsCaptured ((v, src, key) ∷ found) e h u =
      collect_evidence-IsCaptured found _ h.1 (
        Every-modify (λ src' keys. Every (IsCaptured src') keys) src (noted_key v key) e
          (noted-IsCaptured v src key [] h.0 tt) (λ keys. noted-IsCaptured v src key keys h.0) u)

  pub Every-member :
      (src key : Text) (vs : List ℕ) (keys : Keys)
      → Memᴰ (key, vs) keys
      → Every (IsCaptured src) keys
      → IsCaptured src key vs
  Every-member src key vs [] m h = absurd (Memᴰ.not-nil m)
  Every-member src key vs ((k, ws) ∷ keys) m h = elim (Memᴰ.cases_cons m) [
    | inl q ↦ subst (λ (x : Text × List ℕ). IsCaptured src x.0 x.1) (sym q) h.0
    | inr n ↦ Every-member src key vs keys n h.1
  ]

-- Every element of a list is one of its elements.
pub members_in {ℓ} :
    {A : Type ℓ} (xs ys : List A) → ((x : A) → Memᴰ x xs → Memᴰ x ys) → All (λ x. Memᴰ x ys) xs
members_in [] ys h = tt
members_in (x ∷ xs) ys h = (h x (Memᴰ.head refl), members_in xs ys (λ y m. h y (Memᴰ.tail m)))
