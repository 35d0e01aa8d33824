-- ===== src/Builder/KeyShare.antt =====
-- `_parse_key_share` and `_build_key_share` of oracle/chbuild.py.
use browserfp.Prelude.{
  ℕ, zero, suc, ◌+◌, ◌*◌, ◌≡◌, refl, Bool, true, false, not, ◌&&◌, List, [], ◌∷◌, ◌++◌, map, length,
  take, drop, any, lookup, ◌==◌, if◌then◌else◌, Option, some, none, Result, ok, err, value_error,
  unknown_group, wrong_key_length,
}
use browserfp.Prelude
use browserfp.Bytes.{pack16}
use browserfp.ClientHello.Grease.{is_grease}
use browserfp.Builder.Vec.{vec}
use browserfp.Builder.Draw.{Secrets, Draw, ◌>>=◌, lift, draw_bytes}

-- The loop from `i` on, over what `body[i:]` holds; a round takes four bytes at least.
unfoldable pub shape_from : ℕ → List ℕ → List (ℕ × ℕ)
shape_from zero rest = []
shape_from (suc fuel) (a ∷ b ∷ c ∷ d ∷ rest) =
    (a * 256 + b, c * 256 + d) ∷ shape_from fuel (drop (c * 256 + d) rest)
shape_from (suc fuel) _ = []

-- Groups and key lengths, in order, behind the two bytes of the outer length.
unfoldable pub parse_key_share : List ℕ → List (ℕ × ℕ)
unfolding shape_from
parse_key_share body = shape_from (length body) (drop 2 body)

abbrev pub starts_with : List ℕ → List ℕ → Bool
starts_with xs [] = true
starts_with [] (p ∷ ps) = false
starts_with (x ∷ xs) (p ∷ ps) = x == p && starts_with xs ps

-- What follows the first place where `pat` stands: `b[b.index(pat) + len(pat):]`
unfoldable pub after_first : List ℕ → List ℕ → Result (List ℕ)
after_first pat [] = if starts_with [] pat then ok [] else err value_error
after_first pat (x ∷ xs) =
    if starts_with (x ∷ xs) pat then ok (drop (length pat) (x ∷ xs)) else after_first pat xs

-- A key that the caller gave must have the length of the golden one.
abbrev given_key : List ℕ → ℕ → Result (List ℕ)
given_key pub_key plen = if not (length pub_key == plen) then err wrong_key_length else ok pub_key

abbrev chosen_group : ℕ → Option ℕ → ℕ
chosen_group group none = group
chosen_group group (some g) = g

module _ (rng : Secrets) (golden : List ℕ) (key_shares : List (ℕ × List ℕ))
    (grease_group : Option ℕ) where
  -- The group and the key of one entry.
  unfoldable pub share_entry : ℕ → ℕ → Draw (ℕ × List ℕ)
  share_entry group plen = elim (lookup group key_shares) [
    | some pub_key ↦ lift (Prelude.◌>>=◌ (given_key pub_key plen) (λ k. ok (group, k)))
    | none ↦
        if is_grease group
        then (do
          g ← lift (pack16 group)
          n ← lift (pack16 plen)
          rest ← lift (after_first (g ++ n) golden)
          lift (ok (chosen_group group grease_group, take plen rest)))
        else (do key ← draw_bytes rng plen; lift (ok (group, key)))
  ]

  unfoldable pub share_entries : List (ℕ × ℕ) → Draw (List ℕ)
  unfolding share_entry
  share_entries [] = lift (ok [])
  share_entries ((group, plen) ∷ rest) = do
    (g, key) ← share_entry group plen
    id ← lift (pack16 g)
    body ← lift (vec key 2)
    more ← share_entries rest
    lift (ok (id ++ (body ++ more)))

  -- A group that the profile does not have is refused: it would be left out without a word.
  unfoldable pub build_key_share : Draw (List ℕ)
  unfolding share_entries
  build_key_share = elim (parse_key_share golden) [
    | [] ↦ lift (ok golden)
    | s ∷ shape ↦
        if any (λ k. not (any (λ e. k.0 == e.0) (s ∷ shape))) key_shares
        then lift (err unknown_group)
        else (do out ← share_entries (s ∷ shape); lift (vec out 2))
  ]
