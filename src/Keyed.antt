-- ===== src/Keyed.antt =====
-- Python dicts with texts for keys, in the order of insertion: `get`, and a value that is made or changed.
use browserfp.Prelude.{
  ℕ, suc, ◌+◌, ◌≡◌, refl, sym, ap, subst, ◌∙◌, true, false, List, [], ◌∷◌, Option, none, some,
  if◌then◌else◌, Bool-cases, inl, inr, ==_refl, arith,
}
use browserfp.Text.{Text}
use browserfp.Match.Norm.{same_list}
use browserfp.Match.Answers.{same_list-eq}

pub same_list_self : (t : Text) → same_list t t ≡ true
same_list_self [] = refl
same_list_self (c ∷ t) = rw (==_refl c) (same_list_self t)

same_list_flip : (s t : Text) → same_list s t ≡ false → same_list t s ≡ false
same_list_flip s t n = elim (Bool-cases (same_list t s)) [
  | inl e ↦
      let same : s ≡ t = sym (same_list-eq t s e) in
      absurd (
        let q : same_list s s ≡ false = ap (λ u. same_list s u) same ∙ n in
        let r = same_list_self s in cc)
  | inr m ↦ m
]

module _ {ℓ} {A : Type ℓ} where
  -- `d.get(k)`
  unfoldable pub get_at : Text → List (Text × A) → Option A
  get_at k [] = none
  get_at k ((j, v) ∷ d) = let rest = get_at k d in if same_list j k then some v else rest

  -- `d[k] = f(d.get(k))`: a new key goes behind the others.
  unfoldable pub modify : Text → (Option A → A) → List (Text × A) → List (Text × A)
  modify k f [] = (k, f none) ∷ []
  modify k f ((j, v) ∷ d) =
      let rest = modify k f d in if same_list j k then (j, f (some v)) ∷ d else (j, v) ∷ rest

  -- What holds of every key and its value.
  abbrev pub Every {κ} : (Text → A → Type κ) → List (Text × A) → Type κ
  Every P [] = Unit {κ}
  Every P ((k, v) ∷ d) = P k v × Every P d

  -- No key occurs twice.
  abbrev pub IsDistinct : List (Text × A) → Type ℓ
  IsDistinct [] = Unit {ℓ}
  IsDistinct ((k, v) ∷ d) = (get_at k d ≡ none) × IsDistinct d

  -- The sum of a measure of the values.
  abbrev pub total : (A → ℕ) → List (Text × A) → ℕ
  total size [] = 0
  total size ((k, v) ∷ d) = size v + total size d

  pub get_at-modify :
      (k : Text) (f : Option A → A) (d : List (Text × A))
      → get_at k (modify k f d) ≡ some (f (get_at k d))
  unfolding get_at modify
  get_at-modify k f [] = rw (same_list_self k) refl
  get_at-modify k f ((j, v) ∷ d) = elim (Bool-cases (same_list j k)) [
    | inl e ↦ rw (e, e) refl
    | inr n ↦ rw (n, n) (get_at-modify k f d)
  ]

  pub get_at-modify_other :
      (k j : Text) (f : Option A → A) (d : List (Text × A))
      → same_list k j ≡ false
      → get_at j (modify k f d) ≡ get_at j d
  unfolding get_at modify
  get_at-modify_other k j f [] h = rw h refl
  get_at-modify_other k j f ((i, v) ∷ d) h = elim (Bool-cases (same_list i k)) [
    | inl e ↦
        let same : i ≡ k = same_list-eq i k e in
        let apart : same_list i j ≡ false = ap (λ t. same_list t j) same ∙ h in rw (e, apart) refl
    | inr n ↦ rw n (ap (λ o. if same_list i j then some v else o) (get_at-modify_other k j f d h))
  ]

  pub Every-modify {κ} :
      (P : Text → A → Type κ) (k : Text) (f : Option A → A) (d : List (Text × A))
      → P k (f none)
      → ((v : A) → P k v → P k (f (some v)))
      → Every P d
      → Every P (modify k f d)
  unfolding modify
  Every-modify P k f [] hn hs h = (hn, tt)
  Every-modify P k f ((j, v) ∷ d) hn hs h = elim (Bool-cases (same_list j k)) [
    | inl e ↦
        let same : k ≡ j = sym (same_list-eq j k e) in
        rw e (subst (λ t. P t (f (some v))) same (hs v (subst (λ t. P t v) (sym same) h.0)), h.1)
    | inr n ↦ rw n (h.0, Every-modify P k f d hn hs h.1)
  ]

  pub modify-IsDistinct :
      (k : Text) (f : Option A → A) (d : List (Text × A)) → IsDistinct d → IsDistinct (modify k f d)
  unfolding modify get_at
  modify-IsDistinct k f [] h = (refl, tt)
  modify-IsDistinct k f ((j, v) ∷ d) h = elim (Bool-cases (same_list j k)) [
    | inl e ↦ rw e (h.0, h.1)
    | inr n ↦
        rw n (get_at-modify_other k j f d (same_list_flip j k n) ∙ h.0, modify-IsDistinct k f d h.1)
  ]

  pub total-modify :
      (size : A → ℕ) (k : Text) (f : Option A → A) (d : List (Text × A))
      → size (f none) ≡ 1
      → ((v : A) → size (f (some v)) ≡ suc (size v))
      → total size (modify k f d) ≡ suc (total size d)
  unfolding modify
  total-modify size k f [] hn hs = omega (arith, hn)
  total-modify size k f ((j, v) ∷ d) hn hs = elim (Bool-cases (same_list j k)) [
    | inl e ↦ rw e (omega (arith, hs v))
    | inr n ↦ rw n (omega (arith, total-modify size k f d hn hs))
  ]

  -- A value that is there is one of those of which something holds.
  pub Every-get_at {κ} :
      (P : Text → A → Type κ) (k : Text) (v : A) (d : List (Text × A))
      → Every P d
      → get_at k d ≡ some v
      → P k v
  unfolding get_at
  Every-get_at P k v [] h e = absurd (cc)
  Every-get_at P k v ((j, w) ∷ d) h e = elim (Bool-cases (same_list j k)) [
    | inl q ↦
        let found : some w ≡ some v = rw q at e in
        let same : w ≡ v = cc in
        subst (λ t. P t v) (same_list-eq j k q) (subst (λ x. P j x) same h.0)
    | inr n ↦ Every-get_at P k v d h.1 (rw n at e)
  ]
