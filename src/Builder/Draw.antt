-- ===== src/Builder/Draw.antt =====
-- `secrets`: the source of randomness, as a parameter, and computations that draw from it. The state
-- is the number of draws made so far.
use browserfp.Prelude.{
  ℕ, suc, ◌<◌, ◌≡◌, List, length, All, Result, ok, err, stuck, Error, ok_bind, refl,
}
use browserfp.Prelude
use browserfp.Bytes.{IsByte}

-- The `n`-th draw of `secrets.token_bytes` and `secrets.randbelow`, and what their documentation says.
pub record Secrets : Type 0 where
  pub token_bytes : ℕ → ℕ → List ℕ
  pub randbelow : ℕ → ℕ → ℕ
  pub length-token_bytes : (i n : ℕ) → length (token_bytes i n) ≡ n
  pub token_bytes-IsByte : (i n : ℕ) → All IsByte (token_bytes i n)
  pub randbelow-lt : (i n : ℕ) → 0 < n → randbelow i n < n

abbrev pub Draw {ℓ} : Type ℓ → Type ℓ
Draw A = ℕ → Result (A × ℕ)

infixl 5 ◌>>=◌
abbrev pub ◌>>=◌ {ℓ κ} : {A : Type ℓ} {B : Type κ} → Draw A → (A → Draw B) → Draw B
◌>>=◌ m f i = Prelude.◌>>=◌ (m i) (λ r. f r.0 r.1)

-- A computation that draws nothing.
abbrev pub lift {ℓ} : {A : Type ℓ} → Result A → Draw A
lift r i = Prelude.◌>>=◌ r (λ a. ok (a, i))

module _ (rng : Secrets) where
  -- `secrets.token_bytes(n)`
  abbrev pub draw_bytes : ℕ → Draw (List ℕ)
  draw_bytes n i = ok (rng.token_bytes i n, suc i)

  -- `secrets.randbelow(n)`
  abbrev pub draw_below : ℕ → Draw ℕ
  draw_below n i = ok (rng.randbelow i n, suc i)

-- Inversion of a run that returns, one rule for a step that draws and one for a step that does not.
module _ {ℓ κ μ} {A : Type ℓ} {B : Type κ} {P : Type μ} where
  pub draw_bind :
      (m : Draw A) (f : A → Draw B) (i : ℕ) {b : B × ℕ}
      → (m >>= f) i ≡ ok b
      → ((a : A) (j : ℕ) → m i ≡ ok (a, j) → f a j ≡ ok b → P)
      → P
  draw_bind m f i h k = ok_bind (m i) (λ r. f r.0 r.1) h (λ r e e'. k r.0 r.1 e e')

  pub lift_bind :
      (r : Result A) (f : A → Draw B) (i : ℕ) {b : B × ℕ}
      → (lift r >>= f) i ≡ ok b
      → ((a : A) → r ≡ ok a → f a i ≡ ok b → P)
      → P
  lift_bind (ok a) f i h k = k a refl h
  lift_bind (err e) f i h k = absurd (cc)
  lift_bind stuck f i h k = absurd (cc)

pub lift-eq_ok {ℓ} : {A : Type ℓ} (r : Result A) (i : ℕ) {p : A × ℕ} → lift r i ≡ ok p → r ≡ ok p.0
lift-eq_ok (ok a) i h = cc
lift-eq_ok (err e) i h = absurd (cc)
lift-eq_ok stuck i h = absurd (cc)
