-- ===== src/Builder/Permute.antt =====
-- `permute_extensions` of oracle/chbuild.py. `sha256` is the digest of hashlib, in bytes. The loop that
-- draws below a bound takes fuel: how long it runs depends on the digests.
pub mod Swap
pub mod Place
pub mod Shuffle
pub mod Ending
use browserfp.Prelude.{
  ℕ, zero, suc, ◌+◌, ◌-◌, ◌/◌, ◌%◌, ◌<◌, ◌≡◌, refl, Bool, true, false, not, ◌&&◌, ◌||◌, List, [],
  ◌∷◌, ◌++◌, length, get_elem?, set, filter, ◌==◌, ltb, if◌then◌else◌, Option, some, none, Result,
  ok, err, stuck, ◌>>=◌, or_raise, index_error, overflow_error,
}
use browserfp.ClientHello.Grease.{is_grease}

abbrev pub padding_ext : ℕ
padding_ext = 0x0015

abbrev pub psk_ext : ℕ
psk_ext = 0x0029

-- GREASE, padding and the PSK keep their places.
unfoldable pub is_pinned : ℕ → Bool
is_pinned e = e == padding_ext || e == psk_ext || is_grease e

-- The places of the others, the first of them at `i`.
unfoldable pub movable_from : ℕ → List ℕ → List ℕ
movable_from i [] = []
movable_from i (e ∷ es) =
    if is_pinned e then movable_from (suc i) es else i ∷ movable_from (suc i) es

-- `xs[i], xs[j] = xs[j], xs[i]`
unfoldable pub swap : List ℕ → ℕ → ℕ → Result (List ℕ)
swap xs i j = do
  x ← or_raise index_error (get_elem? xs i)
  y ← or_raise index_error (get_elem? xs j)
  ok (set (set xs i y) j x)

-- `for pos, val in zip(movable, picked): out[pos] = val`
unfoldable pub place : List ℕ → List ℕ → List ℕ → List ℕ
place [] vals out = out
place (p ∷ ps) [] out = out
place (p ∷ ps) (v ∷ vals) out = place ps vals (set out p v)

abbrev be32 : ℕ → List ℕ
be32 v = (v / 16777216 % 256) ∷ (v / 65536 % 256) ∷ (v / 256 % 256) ∷ (v % 256) ∷ []

module _ (sha256 : List ℕ → List ℕ) (random32 : List ℕ) where
  -- Byte `pos` of the stream of digests, with the position behind it. The counter has four bytes.
  unfoldable pub next : ℕ → Result (ℕ × ℕ)
  next pos =
      if ltb (pos / 32) 0x1_0000_0000
      then (do
        b ← or_raise index_error (get_elem? (sha256 (random32 ++ be32 (pos / 32))) (pos % 32))
        ok (b, suc pos))
      else err overflow_error

  -- Rejection sampling: a byte beyond the last multiple of `n` is passed over.
  unfoldable pub below : ℕ → ℕ → ℕ → Result (ℕ × ℕ)
  below zero n pos = stuck
  below (suc fuel) n pos = do
    (b, pos') ← next pos
    (let again = below fuel n pos' in if ltb b (256 - 256 % n) then ok (b % n, pos') else again)

  -- `for k in range(len(picked) - 1, 0, -1)`, the next `k` given.
  unfoldable pub shuffle : ℕ → ℕ → List ℕ → ℕ → Result (List ℕ)
  shuffle fuel zero picked pos = ok picked
  shuffle fuel (suc k) picked pos = do
    (j, pos') ← below fuel (suc (suc k)) pos
    picked' ← swap picked (suc k) j
    shuffle fuel k picked' pos'

  unfoldable pub permute_extensions : ℕ → List ℕ → Result (List ℕ)
  permute_extensions fuel ext_order =
      let picked = filter (λ e. not (is_pinned e)) ext_order in
      if ltb (length picked) 2 then ok ext_order else (do
        picked' ← shuffle fuel (length picked - 1) picked 0
        ok (place (movable_from 0 ext_order) picked' ext_order))
