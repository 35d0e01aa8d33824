-- ===== src/Prelude/Dict.antt =====
-- A Python dict with numbers for keys, in its order: a key that is set again keeps its place.
use Prim.Native.Nat.{ℕ}
use mathlib.Core.Path.{◌≡◌, refl}
use mathlib.Core.Option.{Option, none, some}
use mathlib.Core.List.{List, [], ◌∷◌}
use native.Mathlib.Omega.{arith}
use browserfp.Prelude.Tests.{◌==◌, if◌then◌else◌}

module _ {ℓ} {V : Type ℓ} where
  -- `d.get(k)`
  abbrev pub lookup : ℕ → List (ℕ × V) → Option V
  lookup k [] = none
  lookup k ((j, v) ∷ d) = if j == k then some v else lookup k d

  -- `d[k] = v`
  abbrev pub put : ℕ → V → List (ℕ × V) → List (ℕ × V)
  put k v [] = (k, v) ∷ []
  put k v ((j, w) ∷ d) = if j == k then (k, v) ∷ d else (j, w) ∷ put k v d

  -- `d.setdefault(k, v)`
  abbrev pub set_default : ℕ → V → List (ℕ × V) → List (ℕ × V)
  set_default k v [] = (k, v) ∷ []
  set_default k v ((j, w) ∷ d) = if j == k then (j, w) ∷ d else (j, w) ∷ set_default k v d

  -- `d.get(k, v)`
  abbrev pub get_or : V → Option V → V
  get_or v none = v
  get_or v (some w) = w

  pub lookup-put :
      (k j : ℕ) (v : V) (d : List (ℕ × V))
      → lookup j (put k v d) ≡ (if k == j then some v else lookup j d)
  lookup-put k j v [] = refl
  lookup-put k j v ((i, w) ∷ d) = ground (arith, lookup-put k j v d)

  pub lookup-set_default :
      (k j : ℕ) (v : V) (d : List (ℕ × V))
      → lookup j (set_default k v d) ≡ (if k == j then some (get_or v (lookup k d)) else lookup j d)
  lookup-set_default k j v [] = refl
  lookup-set_default k j v ((i, w) ∷ d) = ground (arith, lookup-set_default k j v d)
