-- ===== src/Builder/Permute/Swap.antt =====
-- Swapping two elements of a list, one step of the shuffle of oracle/chbuild.py.
use mathlib.Core.List.{Perm}
use mathlib.Core.List.Perm
use browserfp.Prelude.{
  ℕ, zero, suc, ◌<◌, ◌≡◌, refl, List, [], ◌∷◌, length, get_elem?, set, length-set, some,
  Option-cases, inl, inr, ok, arith,
}
use browserfp.Builder.Permute.{swap}

get_elem?-set-some :
    (xs : List ℕ) (i j x y : ℕ)
    → get_elem? xs i ≡ some x
    → get_elem? xs j ≡ some y
    → get_elem? (set xs i y) j ≡ some y
get_elem?-set-some [] i j x y hi hj = cc
get_elem?-set-some (z ∷ xs) zero zero x y hi hj = refl
get_elem?-set-some (z ∷ xs) zero (suc j) x y hi hj = hj
get_elem?-set-some (z ∷ xs) (suc i) zero x y hi hj = hj
get_elem?-set-some (z ∷ xs) (suc i) (suc j) x y hi hj = get_elem?-set-some xs i j x y hi hj

set_perm : (xs : List ℕ) (i x a : ℕ) → get_elem? xs i ≡ some x → Perm (x ∷ set xs i a) (a ∷ xs)
set_perm [] i x a h = cc
set_perm (z ∷ xs) zero x a h = let e : z ≡ x = cc in rw e (Perm.swap _ _ _)
set_perm (z ∷ xs) (suc i) x a h =
    Perm.trans (Perm.swap _ _ _) (Perm.trans (Perm.cons z (set_perm xs i x a h)) (Perm.swap _ _ _))

set_set_perm :
    (xs : List ℕ) (i j x y : ℕ)
    → get_elem? xs i ≡ some x
    → get_elem? xs j ≡ some y
    → Perm (set (set xs i y) j x) xs
set_set_perm xs i j x y hi hj = Perm.cons_inv (
    Perm.trans (set_perm (set xs i y) j y x (get_elem?-set-some xs i j x y hi hj))
      (set_perm xs i x y hi))

pub swap-perm : (xs : List ℕ) (i j : ℕ) {ys : List ℕ} → swap xs i j ≡ ok ys → Perm ys xs
unfolding swap
swap-perm xs i j {ys} h = elim (Option-cases (get_elem? xs i)) [
  | inl hi ↦ absurd (ground (arith, h, hi))
  | inr (x, hi) ↦ elim (Option-cases (get_elem? xs j)) [
    | inl hj ↦ absurd (ground (arith, h, hi, hj))
    | inr (y, hj) ↦
        let e : set (set xs i y) j x ≡ ys = ground (arith, h, hi, hj) in
        rw e at (set_set_perm xs i j x y hi hj)
  ]
]

pub get_elem?_below : (xs : List ℕ) (i : ℕ) → i < length xs → (x : ℕ) × (get_elem? xs i ≡ some x)
get_elem?_below [] i h = absurd (omega arith)
get_elem?_below (x ∷ xs) zero h = (x, refl)
get_elem?_below (x ∷ xs) (suc i) h = get_elem?_below xs i (omega arith)

pub swap_total :
    (xs : List ℕ) (i j : ℕ)
    → i < length xs
    → j < length xs
    → (ys : List ℕ) × (swap xs i j ≡ ok ys) × (length ys ≡ length xs)
unfolding swap
swap_total xs i j hi hj =
    let (x, ex) = get_elem?_below xs i hi in
    let (y, ey) = get_elem?_below xs j hj in
    (set (set xs i y) j x, rw (ex, ey), rw (length-set, length-set))
