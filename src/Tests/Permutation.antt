-- ===== src/Tests/Permutation.antt =====
-- Runs of the permutation of extensions.
use mathlib.Core.Logic.{◌≢◌}
use mathlib.Core.List.{Perm}
use browserfp.Prelude.{
  All, true, lt→ltb, ◌/◌, ◌%◌, ℕ, zero, suc, ◌<◌, ◌≤◌, ◌≡◌, inl, refl, List, [], ◌∷◌, length,
  replicate, get_elem?, some, ok, arith,
}
use browserfp.ClientHello.Grease.{is_grease, drop_grease}
use browserfp.Builder.Regrease.{regrease_list}
use browserfp.Builder.Regrease.Laws.{IsGrease, drop_grease-regrease_list}
use browserfp.Builder.Permute.{
  is_pinned, movable_from, swap, place, next, below, shuffle, permute_extensions,
}
use browserfp.Builder.Permute.Place.{movable}
use browserfp.Builder.Permute.Shuffle.{permute_extensions-perm, permute_extensions_pinned}
use browserfp.Builder.Permute.Ending.{permute_extensions_total, permute_extensions_stops}
use browserfp.Tests.Samples.{zero_digest}

abbrev given : List ℕ
given = 0x2a2a ∷ 0x0000 ∷ 0x000a ∷ 0x0015 ∷ 0x0010 ∷ []

abbrev permuted : List ℕ
permuted = 0x2a2a ∷ 0x000a ∷ 0x0010 ∷ 0x0015 ∷ 0x0000 ∷ []

permuted_eq : permute_extensions zero_digest [] 1 given ≡ ok permuted
unfolding permute_extensions movable_from is_pinned is_grease shuffle below next swap place
permuted_eq = refl

permute_extensions-perm_example : Perm permuted given
permute_extensions-perm_example =
    permute_extensions-perm zero_digest [] 1 given permuted permuted_eq

padding : is_pinned 0x0015 ≡ true
unfolding is_pinned is_grease
padding = refl

permute_extensions_pinned_example : get_elem? permuted 3 ≡ some 0x0015
permute_extensions_pinned_example =
    permute_extensions_pinned zero_digest [] 1 given permuted 3 0x0015 permuted_eq refl padding

get_elem?-replicate : (n i : ℕ) → i < n → get_elem? {A = ℕ} (replicate n 0) i ≡ some 0
get_elem?-replicate zero i h = absurd (omega arith)
get_elem?-replicate (suc n) zero h = refl
get_elem?-replicate (suc n) (suc i) h = get_elem?-replicate n i (omega arith)

next_zero : (pos : ℕ) → pos < 256 → next zero_digest [] pos ≡ ok (0, suc pos)
unfolding next
next_zero pos h =
    rw
      (
        lt→ltb (pos / 32) 0x1_0000_0000 (omega arith),
        get_elem?-replicate 32 (pos % 32) (omega arith),
      )
      refl

few : length (movable given) ≤ 256
unfolding is_pinned is_grease
few = omega arith

permute_extensions_total_example :
    (out : List ℕ) × (permute_extensions zero_digest [] 1 given ≡ ok out)
permute_extensions_total_example =
    permute_extensions_total zero_digest [] 1 (omega arith)
      (λ pos h. (0, next_zero pos h, inl (omega arith))) given few

many : 256 < length (movable (replicate 257 1))
unfolding is_pinned is_grease
many = omega arith

permute_extensions_stops_example : permute_extensions zero_digest [] 9 (replicate 257 1) ≢ ok []
permute_extensions_stops_example =
    permute_extensions_stops zero_digest [] 9 (replicate 257 1) [] many

new_values-IsGrease : All IsGrease (0x1a1a ∷ 0x3a3a ∷ [])
unfolding is_grease
new_values-IsGrease = (refl, (refl, tt))

drop_grease-regrease_list_example :
    drop_grease (regrease_list given (0x1a1a ∷ 0x3a3a ∷ [])) ≡ drop_grease given
drop_grease-regrease_list_example =
    drop_grease-regrease_list (0x1a1a ∷ 0x3a3a ∷ []) (omega arith) new_values-IsGrease given
