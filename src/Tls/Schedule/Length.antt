-- ===== src/Tls/Schedule/Length.antt =====
-- `hkdf_expand` of oracle/tls13.py: its loop, and how many bytes it makes.
use browserfp.Prelude.{
  ℕ, zero, suc, ◌+◌, ◌*◌, ◌<◌, ◌≤◌, ◌≡◌, refl, ap, ◌∙◌, List, [], ◌∷◌, ◌++◌, length, length-append,
  length-take, take, ltb, Bool-cases, inl, inr, ok, arith, ltb→lt, lt→ltb,
}
use browserfp.Bytes.{pack8}
use browserfp.Tls.Library.{Hash, sha256, sha384, size_of, Library, IsSound}
use browserfp.Tls.Schedule.{expand_from, hkdf_expand}

-- The counter stays below 256 while bytes are missing, and each round adds a digest.
counter_fits :
    (h : Hash) (have size i : ℕ)
    → size ≤ 255 * size_of h
    → have + size_of h ≡ i * size_of h
    → have < size
    → i < 256
counter_fits sha256 have size i hs hi hl = omega arith
counter_fits sha384 have size i hs hi hl = omega arith

next_digest :
    (h : Hash) (have i : ℕ)
    → have + size_of h ≡ i * size_of h
    → have + size_of h + size_of h ≡ (i + 1) * size_of h
next_digest sha256 have i hi = omega arith
next_digest sha384 have i hi = omega arith

pub size_positive : (h : Hash) → 0 < size_of h
size_positive sha256 = omega arith
size_positive sha384 = omega arith

pack8-lt : (v : ℕ) → v < 256 → pack8 v ≡ ok (v ∷ [])
unfolding pack8
pack8-lt v h = rw (lt→ltb v 256 h)

module _ (lib : Library) (sound : IsSound lib) (h : Hash) where
  expand_from-total :
      (fuel : ℕ) (prk info : List ℕ) (size : ℕ) (out t : List ℕ) (i : ℕ)
      → size ≤ 255 * size_of h
      → length out + size_of h ≡ i * size_of h
      → 0 < fuel
      → size < fuel + length out
      → (r : List ℕ) × (expand_from lib h fuel prk info size out t i ≡ ok r) × (length r ≡ size)
  unfolding expand_from
  expand_from-total zero prk info size out t i hs hi h0 hf = absurd (omega arith)
  expand_from-total (suc fuel) prk info size out t i hs hi h0 hf =
      elim (Bool-cases (ltb (length out) size)) [
        | inl e ↦
            let missing = ltb→lt (length out) size e in
            let u = lib.hmac h prk (t ++ (info ++ (i ∷ []))) in
            let grown : length (out ++ u) ≡ length out + size_of h =
              omega
                (arith, length-append out u, sound.length-hmac h prk (t ++ (info ++ (i ∷ [])))) in
            rw (e, pack8-lt i (counter_fits h (length out) size i hs hi missing))
              (expand_from-total fuel prk info size (out ++ u) u (i + 1) hs
                (ap (λ m. m + size_of h) grown ∙ next_digest h (length out) i hi) (omega arith)
                (omega (arith, size_positive h)))
        | inr e ↦ rw e (take size out, refl, ground (arith, length-take size out))
      ]

  -- `hkdf_expand` gives as many bytes as it was asked for, whatever the key and the information: up to
  -- 255 digests its loop ends and its counter fits into a byte. HMAC gives digests of their length.
  pub hkdf_expand-total :
      (prk info : List ℕ) (size : ℕ)
      → size ≤ 255 * size_of h
      → (r : List ℕ) × (hkdf_expand lib h prk info size ≡ ok r) × (length r ≡ size)
  unfolding hkdf_expand
  hkdf_expand-total prk info size hs =
      expand_from-total (suc size) prk info size [] [] 1 hs (omega arith) (omega arith)
        (omega arith)
