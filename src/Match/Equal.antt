-- ===== src/Match/Equal.antt =====
-- The normal forms in which `_diff` of oracle/match.py finds no field.
use browserfp.Prelude.{
  ℕ, ◌≡◌, refl, ap, ap₂, Bool, true, false, List, [], ◌∷◌, Option, none, some, Bool-cases, inl, inr,
  ◌==◌, arith,
}
use browserfp.Text.{Text}
use browserfp.Match.Norm.{Norm, same_list, same_texts, same_option, same_bool, unless, diff}
use browserfp.Match.Answers.{same_list-eq}

unless_nil :
    (b : Bool) (f : Text) (rest : List Text) → unless b f rest ≡ [] → (b ≡ true) × (rest ≡ [])
unless_nil true f rest h = (refl, h)
unless_nil false f rest h = absurd (cc)

same_texts-eq : (xs ys : List Text) → same_texts xs ys ≡ true → xs ≡ ys
same_texts-eq [] [] h = refl
same_texts-eq [] (y ∷ ys) h = absurd (cc)
same_texts-eq (x ∷ xs) [] h = absurd (cc)
same_texts-eq (x ∷ xs) (y ∷ ys) h = elim (Bool-cases (same_list x y)) [
  | inl e ↦ ap₂ (λ z zs. z ∷ zs) (same_list-eq x y e) (same_texts-eq xs ys (rw e at h))
  | inr n ↦ absurd (let q = rw n at h in cc)
]

same_option-eq : (a b : Option ℕ) → same_option a b ≡ true → a ≡ b
same_option-eq none none h = refl
same_option-eq none (some y) h = absurd (cc)
same_option-eq (some x) none h = absurd (cc)
same_option-eq (some x) (some y) h = ap some (ground (arith, h))

same_bool-eq : (a b : Bool) → same_bool a b ≡ true → a ≡ b
same_bool-eq true true h = refl
same_bool-eq true false h = absurd (cc)
same_bool-eq false true h = absurd (cc)
same_bool-eq false false h = refl

number-eq : (x y : ℕ) → (x == y) ≡ true → x ≡ y
number-eq x y h = ground arith

-- No field that differs.
pub diff-eq : (a b : Norm) → diff a b ≡ [] → a ≡ b
unfolding diff
diff-eq a b h =
    let (c1, h1) = unless_nil _ _ _ h in
    let (c2, h2) = unless_nil _ _ _ h1 in
    let (c3, h3) = unless_nil _ _ _ h2 in
    let (c4, h4) = unless_nil _ _ _ h3 in
    let (c5, h5) = unless_nil _ _ _ h4 in
    let (c6, h6) = unless_nil _ _ _ h5 in
    let (c7, h7) = unless_nil _ _ _ h6 in
    let (c8, h8) = unless_nil _ _ _ h7 in
    let (c9, h9) = unless_nil _ _ _ h8 in
    let (c10, h10) = unless_nil _ _ _ h9 in
    let (c11, h11) = unless_nil _ _ _ h10 in
    let (c12, h12) = unless_nil _ _ _ h11 in
    let (c13, h13) = unless_nil _ _ _ h12 in
    let e1 = same_list-eq a.ciphers b.ciphers c1 in
    let e2 = same_list-eq a.extensions_ordered b.extensions_ordered c2 in
    let e3 = same_list-eq a.curves b.curves c3 in
    let e4 = same_list-eq a.sig_algs b.sig_algs c4 in
    let e5 = same_texts-eq a.alpn b.alpn c5 in
    let e6 = same_list-eq a.supported_versions b.supported_versions c6 in
    let e7 = same_list-eq a.psk_modes b.psk_modes c7 in
    let e8 = same_list-eq a.cert_compression b.cert_compression c8 in
    let e9 = same_option-eq a.record_size_limit b.record_size_limit c9 in
    let e10 = same_texts-eq a.app_settings b.app_settings c10 in
    let e11 = same_list-eq a.point_formats b.point_formats c11 in
    let e12 = same_bool-eq a.ech b.ech c12 in
    let e13 = number-eq a.client_version b.client_version c13 in cc
