-- ===== src/Quic/Reassemble.antt =====
-- `reassemble_client_hello` of oracle/quic.py: the CRYPTO chunks of several packets, put together at
-- their offsets, as a TLS record.
use browserfp.Prelude.{
  ℕ, zero, suc, ◌+◌, max, Bool, true, false, not, ◌&&◌, List, [], ◌∷◌, ◌++◌, length, replicate, ltb,
  ◌==◌, Result, ok, raise_if, ◌>>=◌, ◌>>◌, no_crypto_frame, crypto_gap, not_a_hello, too_few_bytes,
  hello_incomplete,
}
use browserfp.Bytes.{u24_at, pack16}
use browserfp.Quic.Frames.{Chunk}

-- `max(off + len(data) for off, data in crypto_chunks)`
abbrev pub total_of : List Chunk → ℕ
total_of [] = 0
total_of ((off, part) ∷ rest) = max (off + length part) (total_of rest)

-- `buf[off:off + len(data)] = data`: what lies beyond the end is appended.
unfoldable pub overwrite {ℓ} : {A : Type ℓ} → ℕ → List A → List A → List A
overwrite off part [] = part
overwrite zero [] (b ∷ bs) = b ∷ bs
overwrite zero (d ∷ ds) (b ∷ bs) = d ∷ overwrite zero ds bs
overwrite (suc off) part (b ∷ bs) = b ∷ overwrite off part bs

-- The loop over the chunks, with the bytes and the marks of those that have been seen. The marks are
-- set one by one in the source; none lies beyond `total`.
unfoldable pub collect : List Chunk → List ℕ → List Bool → List ℕ × List Bool
unfolding overwrite
collect [] buf seen = (buf, seen)
collect ((off, part) ∷ rest) buf seen =
    collect rest (overwrite off part buf) (overwrite off (replicate (length part) true) seen)

-- `all(seen)`
abbrev pub all_seen : List Bool → Bool
all_seen [] = true
all_seen (s ∷ ss) = s && all_seen ss

abbrev pub starts_with_hello : List ℕ → Bool
starts_with_hello [] = false
starts_with_hello (b ∷ bs) = b == 0x01

abbrev pub is_empty {ℓ} : {A : Type ℓ} → List A → Bool
is_empty [] = true
is_empty (x ∷ xs) = false

-- The checks on what was put together, and the header of a record.
unfoldable pub framed : List ℕ → List Bool → Result (List ℕ)
framed buf seen = do
  raise_if (not (all_seen seen)) crypto_gap
  raise_if (not (starts_with_hello buf)) not_a_hello
  raise_if (ltb (length buf) 4) too_few_bytes
  n ← u24_at buf 1
  raise_if (ltb (length buf) (4 + n)) hello_incomplete
  size ← pack16 (length buf)
  ok ((0x16 ∷ 0x03 ∷ 0x01 ∷ []) ++ (size ++ buf))

unfoldable pub reassemble_client_hello : List Chunk → Result (List ℕ)
unfolding collect framed
reassemble_client_hello chunks = do
  raise_if (is_empty chunks) no_crypto_frame
  let total = total_of chunks
  let (buf, seen) = collect chunks (replicate total 0) (replicate total false)
  framed buf seen
