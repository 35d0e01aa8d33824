-- ===== src/Builder/Permute/Place.antt =====
-- Putting a permutation of the movable extensions back into their places.
use mathlib.Core.List.{Perm, perm_middle}
use mathlib.Core.List.Perm
use browserfp.Prelude.{
  ℕ, zero, suc, ◌≡◌, refl, ap, ◌∙◌, true, not, List, [], ◌∷◌, ◌++◌, append_assoc, length, get_elem?,
  set, filter, if◌then◌else◌, Bool-cases, inl, inr, length-append, arith, some,
}
use browserfp.Prelude.Sort.{length-perm}
use browserfp.Builder.Permute.{is_pinned, movable_from, place}

abbrev pub movable : List ℕ → List ℕ
movable = filter (λ e. not (is_pinned e))

-- The new values in turn at the movable places, the pinned ones kept.
unfoldable pub fill : List ℕ → List ℕ → List ℕ
fill [] vals = []
fill (e ∷ es) [] = e ∷ fill es []
fill (e ∷ es) (v ∷ vals) = if is_pinned e then e ∷ fill es (v ∷ vals) else v ∷ fill es vals

set-append :
    (pre : List ℕ) (x v : ℕ) (xs : List ℕ) → set (pre ++ (x ∷ xs)) (length pre) v ≡ pre ++ (v ∷ xs)
set-append [] x v xs = refl
set-append (p ∷ pre) x v xs = ap (λ t. p ∷ t) (set-append pre x v xs)

place-nil : (ps out : List ℕ) → place ps [] out ≡ out
unfolding place
place-nil [] out = refl
place-nil (p ∷ ps) out = refl

fill-nil : (es : List ℕ) → fill es [] ≡ es
unfolding fill
fill-nil [] = refl
fill-nil (e ∷ es) = rw (fill-nil es)

abbrev PlacesBehind : List ℕ → List ℕ → List ℕ → Type 0
PlacesBehind pre es vals =
    place (movable_from (length pre) es) vals (pre ++ es) ≡ pre ++ fill es vals

past_one :
    (pre : List ℕ) (x : ℕ) (es vals : List ℕ)
    → PlacesBehind (pre ++ (x ∷ [])) es vals
    → place (movable_from (suc (length pre)) es) vals (pre ++ (x ∷ es)) ≡ pre ++ (x ∷ fill es vals)
past_one pre x es vals h =
    let e : length (pre ++ (x ∷ [])) ≡ suc (length pre) =
      omega (arith, length-append pre (x ∷ [])) in
    rw (append_assoc, append_assoc, e) at h

place-fill : (pre es vals : List ℕ) → PlacesBehind pre es vals
unfolding movable_from place fill
place-fill pre [] [] = refl
place-fill pre [] (v ∷ vals) = refl
place-fill pre (e ∷ es) [] = rw (fill-nil es) (place-nil _ _)
place-fill pre (e ∷ es) (v ∷ vals) = elim (Bool-cases (is_pinned e)) [
  | inl h ↦ rw h (past_one pre e es (v ∷ vals) (place-fill (pre ++ (e ∷ [])) es (v ∷ vals)))
  | inr h ↦ rw h (
      ap (place (movable_from (suc (length pre)) es) vals) (set-append pre e v es)
      ∙ past_one pre v es vals (place-fill (pre ++ (v ∷ [])) es vals))
]

pub place-movable : (es vals : List ℕ) → place (movable_from 0 es) vals es ≡ fill es vals
place-movable es vals = place-fill [] es vals

abbrev pinned : List ℕ → List ℕ
pinned = filter is_pinned

fill_split :
    (es vals : List ℕ) → length vals ≡ length (movable es) → Perm (fill es vals) (pinned es ++ vals)
unfolding fill
fill_split [] [] h = Perm.refl []
fill_split [] (v ∷ vals) h = absurd (omega arith)
fill_split (e ∷ es) [] h = elim (Bool-cases (is_pinned e)) [
  | inl p ↦ rw p (Perm.cons e (fill_split es [] (rw p at h)))
  | inr p ↦ absurd (let h' : 0 ≡ suc (length (movable es)) = rw p at h in omega arith)
]
fill_split (e ∷ es) (v ∷ vals) h = elim (Bool-cases (is_pinned e)) [
  | inl p ↦ rw p (Perm.cons e (fill_split es (v ∷ vals) (rw p at h)))
  | inr p ↦
      let h' : suc (length vals) ≡ suc (length (movable es)) = rw p at h in
      rw p (
        Perm.trans (Perm.cons v (fill_split es vals (omega arith)))
          (Perm.symm (perm_middle (pinned es) vals)))
]

split_perm : (es : List ℕ) → Perm (pinned es ++ movable es) es
split_perm [] = Perm.refl []
split_perm (e ∷ es) = elim (Bool-cases (is_pinned e)) [
  | inl p ↦ rw p (Perm.cons e (split_perm es))
  | inr p ↦ rw p (Perm.trans (perm_middle (pinned es) (movable es)) (Perm.cons e (split_perm es)))
]

pub fill-perm : (es vals : List ℕ) → Perm vals (movable es) → Perm (fill es vals) es
fill-perm es vals h =
    Perm.trans (fill_split es vals (length-perm h))
      (Perm.trans (Perm.append_left (pinned es) h) (split_perm es))

pub fill_pinned :
    (es vals : List ℕ) (i e : ℕ)
    → get_elem? es i ≡ some e
    → is_pinned e ≡ true
    → get_elem? (fill es vals) i ≡ some e
unfolding fill
fill_pinned [] vals i e h p = cc
fill_pinned (x ∷ es) [] zero e h p = h
fill_pinned (x ∷ es) [] (suc i) e h p = fill_pinned es [] i e h p
fill_pinned (x ∷ es) (v ∷ vals) zero e h p = let q : x ≡ e = cc in rw (q, p)
fill_pinned (x ∷ es) (v ∷ vals) (suc i) e h p = elim (Bool-cases (is_pinned x)) [
  | inl q ↦ rw q (fill_pinned es (v ∷ vals) i e h p)
  | inr q ↦ rw q (fill_pinned es vals i e h p)
]
