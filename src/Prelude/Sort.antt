-- ===== src/Prelude/Sort.antt =====
-- `sorted` on numbers, as insertion sort, and what it forgets: the order.
use Prim.Native.Nat.{ℕ, suc}
use mathlib.Core.Path.{◌≡◌, refl, ap, ◌∙◌}
use mathlib.Core.Bool.{Bool}
use mathlib.Core.Logic.{∥∥₁_elim, ∥∥₁_map, inl, inr}
use mathlib.Core.List.{List, [], ◌∷◌, Perm, Permᴰ}
use mathlib.Core.List.Permᴰ
use native.Mathlib.Nat.{ℕ_set}
use browserfp.Prelude.Lists.{length, filter}
use native.Mathlib.Omega.{arith}
use browserfp.Prelude.Tests.{leb, if◌then◌else◌, Bool-cases}

unfoldable pub insert : ℕ → List ℕ → List ℕ
insert a [] = a ∷ []
insert a (x ∷ xs) = if leb a x then a ∷ x ∷ xs else x ∷ insert a xs

unfoldable pub sort : List ℕ → List ℕ
unfolding insert
sort [] = []
sort (x ∷ xs) = insert x (sort xs)

insert_comm : (a b : ℕ) (xs : List ℕ) → insert a (insert b xs) ≡ insert b (insert a xs)
unfolding insert
insert_comm a b [] = ground arith
insert_comm a b (x ∷ xs) = ground (arith, insert_comm a b xs)

sort-permd : {xs ys : List ℕ} → Permᴰ xs ys → sort xs ≡ sort ys
unfolding sort
sort-permd Permᴰ.nil = refl
sort-permd (Permᴰ.cons e p) = cc (e, sort-permd p)
sort-permd (Permᴰ.swap {a = a} {b = b} {l = l} e f) = rw (← e, ← f) (insert_comm a b (sort l))
sort-permd (Permᴰ.trans p q) = sort-permd p ∙ sort-permd q

List-set : IsSet (List ℕ)
List-set = hlevel

-- Two lists with the same numbers, as often, sort to one list.
pub sort-perm : {xs ys : List ℕ} → Perm xs ys → sort xs ≡ sort ys
sort-perm {xs} {ys} p = ∥∥₁_elim p (List-set (sort xs) (sort ys)) sort-permd

insert-perm : (a : ℕ) (xs : List ℕ) → Permᴰ (insert a xs) (a ∷ xs)
unfolding insert
insert-perm a [] = Permᴰ.refl (a ∷ [])
insert-perm a (x ∷ xs) = elim (Bool-cases (leb a x)) [
  | inl e ↦ rw e (Permᴰ.refl (a ∷ x ∷ xs))
  | inr e ↦ rw e (Permᴰ.trans (Permᴰ.cons refl (insert-perm a xs)) (Permᴰ.swap refl refl))
]

sort-permd_self : (xs : List ℕ) → Permᴰ (sort xs) xs
unfolding sort
sort-permd_self [] = Permᴰ.nil
sort-permd_self (x ∷ xs) =
    Permᴰ.trans (insert-perm x (sort xs)) (Permᴰ.cons refl (sort-permd_self xs))

pub sort-perm_self : (xs : List ℕ) → Perm (sort xs) xs
sort-perm_self xs = ∣ sort-permd_self xs ∣₁

filter_cons :
    (keep : ℕ → Bool) (a : ℕ) (xs ys : List ℕ)
    → Permᴰ (filter keep xs) (filter keep ys)
    → Permᴰ (filter keep (a ∷ xs)) (filter keep (a ∷ ys))
filter_cons keep a xs ys p = elim (Bool-cases (keep a)) [
  | inl e ↦ rw e (Permᴰ.cons refl p)
  | inr e ↦ rw e p
]

filter_swap :
    (keep : ℕ → Bool) (a b : ℕ) (l : List ℕ)
    → Permᴰ (filter keep (a ∷ b ∷ l)) (filter keep (b ∷ a ∷ l))
filter_swap keep a b l = elim (Bool-cases (keep a)) [
  | inl e ↦ elim (Bool-cases (keep b)) [
    | inl f ↦ rw (e, f) (Permᴰ.swap refl refl)
    | inr f ↦ rw (e, f) (Permᴰ.refl (a ∷ filter keep l))
  ]
  | inr e ↦ rw e (Permᴰ.refl (filter keep (b ∷ l)))
]

filter-permd :
    (keep : ℕ → Bool) {xs ys : List ℕ} → Permᴰ xs ys → Permᴰ (filter keep xs) (filter keep ys)
filter-permd keep Permᴰ.nil = Permᴰ.nil
filter-permd keep (Permᴰ.cons {a = a} e p) = rw (← e) (filter_cons keep a _ _ (filter-permd keep p))
filter-permd keep (Permᴰ.swap {a = a} {b = b} {l = l} e f) = rw (← e, ← f) (filter_swap keep a b l)
filter-permd keep (Permᴰ.trans p q) = Permᴰ.trans (filter-permd keep p) (filter-permd keep q)

pub filter-perm :
    (keep : ℕ → Bool) {xs ys : List ℕ} → Perm xs ys → Perm (filter keep xs) (filter keep ys)
filter-perm keep p = ∥∥₁_map p (filter-permd keep)

-- The number of elements does not depend on the order.
length-permd {ℓ} : {A : Type ℓ} {xs ys : List A} → Permᴰ xs ys → length xs ≡ length ys
length-permd Permᴰ.nil = refl
length-permd (Permᴰ.cons e p) = ap suc (length-permd p)
length-permd (Permᴰ.swap e f) = refl
length-permd (Permᴰ.trans p q) = length-permd p ∙ length-permd q

pub length-perm {ℓ} : {A : Type ℓ} {xs ys : List A} → Perm xs ys → length xs ≡ length ys
length-perm {xs = xs} {ys = ys} p = ∥∥₁_elim p (ℕ_set (length xs) (length ys)) length-permd
