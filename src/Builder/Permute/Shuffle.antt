-- ===== src/Builder/Permute/Shuffle.antt =====
-- The shuffle: what it returns, and when it returns.
use mathlib.Core.List.{Perm}
use mathlib.Core.List.Perm
use browserfp.Prelude.{
  ℕ, zero, suc, ◌-◌, ◌%◌, ◌<◌, ◌≡◌, true, List, length, get_elem?, ltb, Bool-cases, inl, inr, some,
  Result, ok, >>=-eq-ok, ok-injective, ap, sym, ◌∙◌, arith,
}
use browserfp.Builder.Permute.{is_pinned, swap, next, below, shuffle, permute_extensions}
use browserfp.Builder.Permute.Swap.{swap-perm}
use browserfp.Builder.Permute.Place.{movable, fill, place-movable, fill-perm, fill_pinned}

below_here : (n : ℕ) (p r : ℕ × ℕ) → 0 < n → (p.0 % n, p.1) ≡ r → r.0 < n
below_here n p r h e = omega (arith, ap (λ (x : ℕ × ℕ). x.0) e)

module _ (sha256 : List ℕ → List ℕ) (random32 : List ℕ) where
  abbrev bytes : ℕ → Result (ℕ × ℕ)
  bytes = next sha256 random32

  below-lt :
      (fuel n pos : ℕ) (r : ℕ × ℕ) → 0 < n → below sha256 random32 fuel n pos ≡ ok r → r.0 < n
  unfolding below
  below-lt zero n pos r h e = cc
  below-lt (suc fuel) n pos r h e =
      let (p, en, er) = >>=-eq-ok (bytes pos) _ e in
      elim (Bool-cases (ltb p.0 (256 - 256 % n))) [
        | inl t ↦ below_here n p r h (ok-injective (rw t at er))
        | inr t ↦ below-lt fuel n p.1 r h (rw t at er)
      ]

  shuffle-perm :
      (fuel k : ℕ) (picked : List ℕ) (pos : ℕ) (out : List ℕ)
      → shuffle sha256 random32 fuel k picked pos ≡ ok out
      → Perm out picked
  unfolding shuffle
  shuffle-perm fuel zero picked pos out e = let q : picked ≡ out = cc in rw q (Perm.refl out)
  shuffle-perm fuel (suc k) picked pos out e =
      let (r, eb, e') = >>=-eq-ok (below sha256 random32 fuel (suc (suc k)) pos) _ e in
      let (picked', es, e'') = >>=-eq-ok (swap picked (suc k) r.0) _ e' in
      Perm.trans (shuffle-perm fuel k picked' r.1 out e'') (swap-perm picked (suc k) r.0 es)

  permuted :
      (fuel : ℕ) (es out : List ℕ)
      → permute_extensions sha256 random32 fuel es ≡ ok out
      → Perm out es
        × ((i e : ℕ) → get_elem? es i ≡ some e → is_pinned e ≡ true → get_elem? out i ≡ some e)
  unfolding permute_extensions
  permuted fuel es out h = elim (Bool-cases (ltb (length (movable es)) 2)) [
    | inl few ↦ let q : es ≡ out = ground (arith, h, few) in rw q (Perm.refl out, λ i e g _. g)
    | inr many ↦
        let (picked, es', h') =
          >>=-eq-ok (shuffle sha256 random32 fuel (length (movable es) - 1) (movable es) 0) _
            (rw many at h) in
        let perm : Perm picked (movable es) = shuffle-perm fuel _ _ 0 picked es' in
        let q : fill es picked ≡ out = sym (place-movable es picked) ∙ ok-injective h' in
        rw (← q) (fill-perm es picked perm, fill_pinned es picked)
  ]

  -- Whatever the digests are, an order that is returned is a permutation of the one given.
  pub permute_extensions-perm :
      (fuel : ℕ) (es out : List ℕ)
      → permute_extensions sha256 random32 fuel es ≡ ok out
      → Perm out es
  permute_extensions-perm fuel es out h = (permuted fuel es out h).0

  -- Whatever the digests are, a GREASE, padding or PSK extension of the order given has the same
  -- place in an order that is returned.
  pub permute_extensions_pinned :
      (fuel : ℕ) (es out : List ℕ) (i e : ℕ)
      → permute_extensions sha256 random32 fuel es ≡ ok out
      → get_elem? es i ≡ some e
      → is_pinned e ≡ true
      → get_elem? out i ≡ some e
  permute_extensions_pinned fuel es out i e h at_i pinned =
      (permuted fuel es out h).1 i e at_i pinned
