-- ===== src/Quic/Frames.antt =====
-- `_crypto_frames` of oracle/quic.py.
use browserfp.Prelude.{
  ltb→lt, ℕ, zero, suc, ◌+◌, ◌-◌, ◌<◌, ◌||◌, List, [], ◌∷◌, ◌++◌, length, ltb, ◌==◌, if◌then◌else◌,
  Result, ok, stuck, ◌>>=◌, arith,
}
use browserfp.Prelude.Ends.{Ends, Ends-if, Ends-bind, Ends-ok}
use browserfp.Bytes.{byte_at, slice}
use browserfp.Bytes.Range.{byte_at-Ends}
use browserfp.Quic.Varint.{parse_varint, parse_varint-Ends, parse_varint-lt}

abbrev pub Chunk : Type 0
Chunk = ℕ × List ℕ

-- `for _ in range(4): _, i = _parse_varint(plain, i)`
unfoldable pub skip_varints : ℕ → List ℕ → ℕ → Result ℕ
skip_varints zero plain i = ok i
skip_varints (suc n) plain i = do (_, j) ← parse_varint plain i; skip_varints n plain j

-- The loop; every frame takes a byte at least, so `length plain + 1` rounds are enough. After an ACK,
-- and at a frame of any other kind, the loop is left.
unfoldable pub frames_from : ℕ → List ℕ → ℕ → List Chunk → Result (List Chunk)
unfolding skip_varints
frames_from zero plain i out = stuck
frames_from (suc fuel) plain i out =
    let next = frames_from fuel plain (i + 1) out in
    let crypto = (do
      (offset, j) ← parse_varint plain (i + 1)
      (ln, k) ← parse_varint plain j
      frames_from fuel plain (k + ln) (out ++ ((offset, slice plain k (k + ln)) ∷ []))) in
    let round = (do
      ftype ← byte_at plain i
      if ftype == 0x00
          then next
          else if ftype == 0x01
          then next
          else if ftype == 0x06
          then crypto
          else if ftype == 0x02 || ftype == 0x03
          then skip_varints 4 plain (i + 1) >>= (λ _. ok out)
          else ok out) in
    if ltb i (length plain) then round else ok out

unfoldable pub crypto_frames : List ℕ → Result (List Chunk)
unfolding frames_from
crypto_frames plain = frames_from (suc (length plain)) plain 0 []

skip_varints-Ends : (n : ℕ) (plain : List ℕ) (i : ℕ) → Ends (skip_varints n plain i)
unfolding skip_varints
skip_varints-Ends zero plain i = Ends-ok i
skip_varints-Ends (suc n) plain i =
    Ends-bind _ _ (parse_varint-Ends plain i) (λ p _. skip_varints-Ends n plain p.1)

frames_from-Ends :
    (fuel : ℕ) (plain : List ℕ) (i : ℕ) (out : List Chunk)
    → length plain - i < fuel
    → Ends (frames_from fuel plain i out)
unfolding frames_from
frames_from-Ends zero plain i out h = absurd (omega arith)
frames_from-Ends (suc fuel) plain i out h =
    Ends-if (ltb i (length plain)) _ _
      (λ lt.
        let less : i < length plain = ltb→lt i (length plain) lt in
        let next = frames_from-Ends fuel plain (i + 1) out (omega arith) in
        Ends-bind (byte_at plain i) _ (byte_at-Ends plain i) λ ftype _.
          Ends-if (ftype == 0) _ _ (λ _. next)
            λ _.
              Ends-if (ftype == 1) _ _ (λ _. next)
                λ _.
                  Ends-if (ftype == 6) _ _
                    (λ _.
                      Ends-bind (parse_varint plain (i + 1)) _ (parse_varint-Ends plain (i + 1))
                        λ p ep.
                          Ends-bind (parse_varint plain p.1) _ (parse_varint-Ends plain p.1) λ q eq.
                            let lp = parse_varint-lt plain (i + 1) p ep in
                            let lq = parse_varint-lt plain p.1 q eq in
                            frames_from-Ends fuel plain (q.1 + q.0) _ (omega arith))
                    λ _.
                      Ends-if (ftype == 2 || ftype == 3) _ _
                        (λ _.
                          Ends-bind _ _ (skip_varints-Ends 4 plain (i + 1)) (λ _ _. Ends-ok out))
                        (λ _. Ends-ok out))
      (λ _. Ends-ok out)

-- `_crypto_frames` of any payload returns the CRYPTO frames or raises: its loop is left after at most
-- one round for each byte.
pub crypto_frames-Ends : (plain : List ℕ) → Ends (crypto_frames plain)
unfolding crypto_frames
crypto_frames-Ends plain = frames_from-Ends (suc (length plain)) plain 0 [] (omega arith)
