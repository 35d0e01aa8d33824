-- ===== src/Builder/Regrease/Laws.antt =====
-- What fresh GREASE values change, and what they leave alone.
use browserfp.Prelude.{
  ℕ, zero, suc, ◌+◌, ◌%◌, ◌<◌, ◌≡◌, ◌≢◌, refl, ap, subst, Bool, true, false, ◌&&◌, List, [], ◌∷◌,
  length, get_elem?, get_or, All, Bool-cases, inl, inr, Option, some, ok, ok-injective, arith,
}
use browserfp.ClientHello.Grease.{is_grease, drop_grease}
use browserfp.Builder.Draw.{Secrets}
use browserfp.Builder.Regrease.{
  Grease, grease_value, pick_grease, cycled, regrease_from, regrease_list,
}

all_below : ℕ → (ℕ → Bool) → Bool
all_below zero test = true
all_below (suc n) test = test n && all_below n test

all_below_sound :
    (n : ℕ) (test : ℕ → Bool) (i : ℕ) → all_below n test ≡ true → i < n → test i ≡ true
unfolding all_below
all_below_sound zero test i h lt = absurd (omega arith)
all_below_sound (suc n) test i h lt = ground (arith, all_below_sound n test i)

grease_table : all_below 16 (λ i. is_grease (grease_value i)) ≡ true
unfolding all_below is_grease
grease_table = refl

pub grease_value-is_grease : (i : ℕ) → i < 16 → is_grease (grease_value i) ≡ true
grease_value-is_grease i h = all_below_sound 16 (λ k. is_grease (grease_value k)) i grease_table h

abbrev pub IsGrease : ℕ → Type 0
IsGrease v = is_grease v ≡ true

-- A set of GREASE values for one connection.
pub record IsFresh (g : Grease) : Type 0 where
  pub first : ℕ
  pub second : ℕ
  pub two : g.ext ≡ first ∷ second ∷ []
  pub differ : first ≢ second
  pub first_grease : IsGrease first
  pub second_grease : IsGrease second
  pub cipher_grease : IsGrease g.cipher
  pub group_grease : IsGrease g.group
  pub version_grease : IsGrease g.version

offset_differs : (i j : ℕ) → i < 16 → j < 15 → grease_value i ≢ grease_value ((i + 1 + j) % 16)
offset_differs i j hi hj e = omega arith

some_eq : {a b : Grease} → some a ≡ some b → a ≡ b
some_eq h = cc

-- Whatever is drawn, each value of the set that a fresh build picks is GREASE, and the two for
-- extensions differ.
pub pick_grease-IsFresh :
    (rng : Secrets) (i : ℕ) {g : Grease} {k : ℕ}
    → pick_grease rng false i ≡ ok (some g, k)
    → IsFresh g
unfolding pick_grease
pick_grease-IsFresh rng i {g} h =
    let a = rng.randbelow i 16 in
    let b = rng.randbelow (suc i) 15 in
    let la = rng.randbelow-lt i 16 (omega arith) in
    let lb = rng.randbelow-lt (suc i) 15 (omega arith) in
    let q = some_eq (ap (λ (p : Option Grease × ℕ). p.0) (ok-injective h)) in
    subst IsFresh q (record {
      first = grease_value a;
      second = grease_value ((a + 1 + b) % 16);
      two = refl;
      differ = offset_differs a b la lb;
      first_grease = grease_value-is_grease a la;
      second_grease = grease_value-is_grease ((a + 1 + b) % 16) (omega arith);
      cipher_grease = grease_value-is_grease _ (rng.randbelow-lt _ 16 (omega arith));
      group_grease = grease_value-is_grease _ (rng.randbelow-lt _ 16 (omega arith));
      version_grease = grease_value-is_grease _ (rng.randbelow-lt _ 16 (omega arith));
    })

module _ (new : List ℕ) (some_new : 0 < length new) (fresh : All IsGrease new) where
  get_elem?-All :
      (xs : List ℕ) (i : ℕ)
      → All IsGrease xs
      → i < length xs
      → (v : ℕ) → is_grease (get_or v (get_elem? xs i)) ≡ true
  get_elem?-All [] i w h v = absurd (omega arith)
  get_elem?-All (x ∷ xs) zero w h v = w.0
  get_elem?-All (x ∷ xs) (suc i) w h v = get_elem?-All xs i w.1 (omega arith) v

  cycled-is_grease : (i v : ℕ) → is_grease (cycled new i v) ≡ true
  cycled-is_grease i v = get_elem?-All new (i % length new) fresh (omega arith) v

  pub drop_grease-regrease_from :
      (i : ℕ) (vs : List ℕ) → drop_grease (regrease_from new i vs) ≡ drop_grease vs
  unfolding regrease_from
  drop_grease-regrease_from i [] = refl
  drop_grease-regrease_from i (v ∷ vs) = elim (Bool-cases (is_grease v)) [
    | inl g ↦ rw (g, cycled-is_grease i v) (drop_grease-regrease_from (suc i) vs)
    | inr n ↦ rw (n, n) (ap (λ t. v ∷ t) (drop_grease-regrease_from i vs))
  ]

  -- With one GREASE value at least to put in, and only such, regreasing a list leaves what is no GREASE
  -- as it was.
  pub drop_grease-regrease_list :
      (vs : List ℕ) → drop_grease (regrease_list vs new) ≡ drop_grease vs
  unfolding regrease_list
  drop_grease-regrease_list vs = drop_grease-regrease_from 0 vs

pub length-regrease_from :
    (new : List ℕ) (i : ℕ) (vs : List ℕ) → length (regrease_from new i vs) ≡ length vs
unfolding regrease_from
length-regrease_from new i [] = refl
length-regrease_from new i (v ∷ vs) = elim (Bool-cases (is_grease v)) [
  | inl g ↦ rw g (ap suc (length-regrease_from new (suc i) vs))
  | inr n ↦ rw n (ap suc (length-regrease_from new i vs))
]

pub length-regrease_list : (new vs : List ℕ) → length (regrease_list vs new) ≡ length vs
unfolding regrease_list
length-regrease_list new vs = length-regrease_from new 0 vs
