-- ===== src/Builder/Permute/Ending.antt =====
-- How long `permute_extensions` of oracle/chbuild.py runs: the rejection sampling and its fuel.
use mathlib.Core.Logic.{◌≢◌}
use native.Mathlib.Nat.{div-add-mod, mod-eq_of_lt}
use browserfp.Prelude.{
  ℕ, zero, suc, ◌+◌, ◌-◌, ◌*◌, ◌%◌, ◌<◌, ◌≤◌, ◌≡◌, ◌⊎◌, refl, false, List, length, ltb, lt→ltb,
  le→ltb, Bool-cases, inl, inr, ok, >>=-eq-ok, arith,
}
use browserfp.Builder.Permute.{movable_from, place, next, below, shuffle, permute_extensions}
use browserfp.Builder.Permute.Swap.{swap_total}
use browserfp.Builder.Permute.Place.{movable}

-- At most half of the byte values are passed over.
limit_bound : (n : ℕ) → 0 < n → n ≤ 256 → 128 ≤ 256 - 256 % n
limit_bound n h k = grind (arith, div-add-mod 256 n)

one_less : (k fuel : ℕ) → (suc k + 1) * fuel ≡ fuel + (k + 1) * fuel
one_less k fuel = omega arith

module _ (sha256 : List ℕ → List ℕ) (random32 : List ℕ) where
  -- Within `fuel` bytes from `pos` on the stream has one below 128.
  abbrev pub SmallSoon : ℕ → ℕ → Type 0
  SmallSoon zero pos = ⊥
  SmallSoon (suc fuel) pos =
      (b : ℕ) × (next sha256 random32 pos ≡ ok (b, suc pos))
      × ((b < 128) ⊎ SmallSoon fuel (suc pos))

  below_total :
      (fuel n pos : ℕ)
      → 0 < n
      → n ≤ 256
      → SmallSoon fuel pos
      → (r : ℕ × ℕ) × (below sha256 random32 fuel n pos ≡ ok r) × (r.0 < n) × (r.1 ≤ pos + fuel)
  unfolding below
  below_total zero n pos h k s = absurd s
  below_total (suc fuel) n pos h k (b, e, inl small) = (
    (b % n, suc pos),
    rw (e, lt→ltb b (256 - 256 % n) (omega (arith, limit_bound n h k))),
    omega arith,
    omega arith,
  )
  below_total (suc fuel) n pos h k (b, e, inr later) = elim (Bool-cases (ltb b (256 - 256 % n))) [
    | inl t ↦ ((b % n, suc pos), rw (e, t), omega arith, omega arith)
    | inr t ↦
        let (r, er, lt, le) = below_total fuel n (suc pos) h k later in
        (r, rw (e, t) er, lt, omega arith)
  ]

  module _ (fuel : ℕ) (some_fuel : 0 < fuel)
      (soon : (pos : ℕ) → pos < 256 * fuel → SmallSoon fuel pos) where
    shuffle_total :
        (k : ℕ) (picked : List ℕ) (pos : ℕ)
        → k < length picked
        → k < 256
        → pos + (k + 1) * fuel ≤ 256 * fuel
        → (out : List ℕ) × (shuffle sha256 random32 fuel k picked pos ≡ ok out)
    unfolding shuffle
    shuffle_total zero picked pos h hk room = (picked, refl)
    shuffle_total (suc k) picked pos h hk room =
        let here : pos < 256 * fuel = grind arith in
        let ((j, pos'), eb, lt, le) =
          below_total fuel (suc (suc k)) pos (omega arith) (omega arith) (soon pos here) in
        let (picked', es, same) = swap_total picked (suc k) j h (omega arith) in
        let room' : pos' + (k + 1) * fuel ≤ 256 * fuel = omega (arith, one_less k fuel) in
        let (out, eo) = shuffle_total k picked' pos' (omega arith) (omega arith) room' in
        (out, rw (eb, es) eo)

    -- With at most 256 extensions to move, some fuel, and a byte below 128 among the `fuel` bytes from
    -- each place of the stream's first 256 times `fuel`, the permutation returns an order.
    pub permute_extensions_total :
        (es : List ℕ)
        → length (movable es) ≤ 256
        → (out : List ℕ) × (permute_extensions sha256 random32 fuel es ≡ ok out)
    unfolding permute_extensions
    permute_extensions_total es few = elim (Bool-cases (ltb (length (movable es)) 2)) [
      | inl t ↦ (es, rw t)
      | inr t ↦
          let two : 2 ≤ length (movable es) = ground (arith, t) in
          let (picked, e) =
            shuffle_total (length (movable es) - 1) (movable es) 0 (omega arith) (omega arith)
              (grind arith) in
          (place (movable_from 0 es) picked es, rw (t, e))
    ]

  none_below : (fuel n pos : ℕ) (r : ℕ × ℕ) → 256 < n → below sha256 random32 fuel n pos ≢ ok r
  unfolding below
  none_below zero n pos r h e = cc
  none_below (suc fuel) n pos r h e =
      let (p, en, er) = >>=-eq-ok (next sha256 random32 pos) _ e in
      let never : ltb p.0 (256 - 256 % n) ≡ false =
        rw (mod-eq_of_lt h) (le→ltb _ _ (omega arith)) in
      none_below fuel n p.1 r h (rw never at er)

  shuffle_stops :
      (fuel k : ℕ) (picked : List ℕ) (pos : ℕ) (out : List ℕ)
      → 256 ≤ k
      → shuffle sha256 random32 fuel k picked pos ≢ ok out
  unfolding shuffle
  shuffle_stops fuel zero picked pos out h e = absurd (omega arith)
  shuffle_stops fuel (suc k) picked pos out h e =
      let (r, er, _) = >>=-eq-ok (below sha256 random32 fuel (suc (suc k)) pos) _ e in
      none_below fuel (suc (suc k)) pos r (omega arith) er

  -- With more than 256 extensions to move no order is ever returned, whatever the digests: the
  -- first bound is beyond a byte, and every byte is passed over.
  pub permute_extensions_stops :
      (fuel : ℕ) (es out : List ℕ)
      → 256 < length (movable es)
      → permute_extensions sha256 random32 fuel es ≢ ok out
  unfolding permute_extensions
  permute_extensions_stops fuel es out many h =
      let few : ltb (length (movable es)) 2 ≡ false = le→ltb _ _ (omega arith) in
      let (picked, e, _) =
        >>=-eq-ok (shuffle sha256 random32 fuel (length (movable es) - 1) (movable es) 0)
          (λ picked'. ok (place (movable_from 0 es) picked' es)) (rw few at h) in
      shuffle_stops fuel _ _ 0 picked (omega arith) e
