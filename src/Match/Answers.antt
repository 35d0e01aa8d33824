-- ===== src/Match/Answers.antt =====
-- Proofs about the two indexes of `Matcher` of oracle/match.py.
use browserfp.Prelude.{
  ℕ, ◌≡◌, ◌⊎◌, inl, inr, refl, sym, ap, ap₂, ◌∙◌, Bool, true, List, [], ◌∷◌, some, Bool-cases,
  ==_refl, ◌==◌, arith,
}
use browserfp.Text.{Text}
use browserfp.Match.Norm.{Norm, norm, same_list}
use browserfp.Match.Matcher.{Entry, Index, get, put_first, index_from}

abbrev pub IsIn : Entry → List Entry → Type 0
IsIn e [] = ⊥
IsIn e (r ∷ rs) = (e ≡ r) ⊎ IsIn e rs

same_list_refl : (xs : List ℕ) → same_list xs xs ≡ true
same_list_refl [] = refl
same_list_refl (x ∷ xs) = rw (==_refl x) (same_list_refl xs)

pub same_list-eq : (xs ys : List ℕ) → same_list xs ys ≡ true → xs ≡ ys
same_list-eq [] [] h = refl
same_list-eq [] (y ∷ ys) h = absurd (cc)
same_list-eq (x ∷ xs) [] h = absurd (cc)
same_list-eq (x ∷ xs) (y ∷ ys) h = elim (Bool-cases (x == y)) [
  | inl e ↦ ap₂ (λ z zs. z ∷ zs) (ground (arith, e)) (same_list-eq xs ys (rw e at h))
  | inr n ↦ absurd (let q = rw n at h in cc)
]

some_eq : {r s : Entry} → some r ≡ some s → r ≡ s
some_eq h = cc

get-put_kept :
    (k j : Text) (v r : Entry) (d : Index) → get k d ≡ some r → get k (put_first j v d) ≡ some r
unfolding get put_first
get-put_kept k j v r [] h = absurd (cc)
get-put_kept k j v r ((i, s) ∷ d) h = elim (Bool-cases (same_list i j)) [
  | inl e ↦ rw e h
  | inr n ↦ elim (Bool-cases (same_list i k)) [
    | inl e ↦ rw (n, e) (rw e at h)
    | inr m ↦ rw (n, m) (get-put_kept k j v r d (rw m at h))
  ]
]

get-put_found :
    (j : Text) (v : Entry) (d : Index) → (r : Entry) × (get j (put_first j v d) ≡ some r)
unfolding get put_first
get-put_found j v [] = (v, rw (same_list_refl j) refl)
get-put_found j v ((i, s) ∷ d) = elim (Bool-cases (same_list i j)) [
  | inl e ↦ (s, rw (e, e) refl)
  | inr n ↦ let (r, q) = get-put_found j v d in (r, rw (n, n) q)
]

get-put_source :
    (k j : Text) (v r : Entry) (d : Index)
    → get k (put_first j v d) ≡ some r
    → (get k d ≡ some r) ⊎ ((j ≡ k) × (v ≡ r))
unfolding get put_first
get-put_source k j v r [] h = elim (Bool-cases (same_list j k)) [
  | inl e ↦ inr (same_list-eq j k e, some_eq (rw e at h))
  | inr n ↦ absurd (let q = rw n at h in cc)
]
get-put_source k j v r ((i, s) ∷ d) h = elim (Bool-cases (same_list i j)) [
  | inl e ↦ inl (rw e at h)
  | inr n ↦ elim (Bool-cases (same_list i k)) [
    | inl e ↦ inl (rw e (rw (n, e) at h))
    | inr m ↦ elim (get-put_source k j v r d (rw (n, m) at h)) [
      | inl q ↦ inl (rw m q)
      | inr q ↦ inr q
    ]
  ]
]

module _ (dumps : Norm → Text) (p : Bool) where
  index_kept :
      (k : Text) (r : Entry) (d : Index) (rs : List Entry)
      → get k d ≡ some r
      → get k (index_from dumps p d rs) ≡ some r
  unfolding index_from
  index_kept k r d [] h = h
  index_kept k r d (s ∷ rs) h =
      index_kept k r (put_first (dumps (norm s.tls p)) s d) rs
        (get-put_kept k (dumps (norm s.tls p)) s r d h)

  -- Every record of the registry is found under its own key, or one before it with the same.
  pub index_found :
      (e : Entry) (d : Index) (rs : List Entry)
      → IsIn e rs
      → (r : Entry) × (get (dumps (norm e.tls p)) (index_from dumps p d rs) ≡ some r)
  unfolding index_from
  index_found e d [] i = absurd i
  index_found e d (s ∷ rs) (inl q) =
      let (r, g) = get-put_found (dumps (norm e.tls p)) e d in
      rw (← q) (r, index_kept (dumps (norm e.tls p)) r (put_first (dumps (norm e.tls p)) e d) rs g)
  index_found e d (s ∷ rs) (inr i) = index_found e (put_first (dumps (norm s.tls p)) s d) rs i

  pub index_source :
      (k : Text) (r : Entry) (d : Index) (rs : List Entry)
      → get k (index_from dumps p d rs) ≡ some r
      → (get k d ≡ some r) ⊎ (IsIn r rs × (dumps (norm r.tls p) ≡ k))
  unfolding index_from
  index_source k r d [] h = inl h
  index_source k r d (s ∷ rs) h =
      elim (index_source k r (put_first (dumps (norm s.tls p)) s d) rs h) [
        | inr (i, q) ↦ inr (inr i, q)
        | inl g ↦ elim (get-put_source k (dumps (norm s.tls p)) s r d g) [
          | inl g' ↦ inl g'
          | inr (q, v) ↦ inr (inl (sym v), ap (λ (e : Entry). dumps (norm e.tls p)) (sym v) ∙ q)
        ]
      ]
