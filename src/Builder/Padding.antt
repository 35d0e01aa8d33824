-- ===== src/Builder/Padding.antt =====
-- `ext_bytes_wo_padding` and `_hello_len` of oracle/chbuild.py, and the rule for the padding extension.
pub mod Bounds
use browserfp.Prelude.{
  ℕ, zero, suc, ◌+◌, ◌-◌, ◌*◌, ◌≡◌, Bool, true, false, not, ◌&&◌, List, [], ◌∷◌, ◌++◌, length, take,
  drop, replicate, ◌==◌, leb, ltb, if◌then◌else◌, Result, ok, ◌>>=◌,
}
use browserfp.Builder.Vec.{pack_extension}
use browserfp.Builder.Permute.{padding_ext}
use browserfp.ClientHello.Fingerprint.{Fingerprint}

abbrev pub pad_lo : ℕ
pad_lo = 256

abbrev pub pad_to : ℕ
pad_to = 512

-- The loop over what is left of the block; a round takes four bytes at least.
unfoldable pub strip_from : ℕ → List ℕ → List ℕ
strip_from zero rest = []
strip_from (suc fuel) (a ∷ b ∷ c ∷ d ∷ rest) =
    let n = c * 256 + d in
    let more = strip_from fuel (drop n rest) in
    if a * 256 + b == padding_ext then more else a ∷ b ∷ c ∷ d ∷ (take n rest ++ more)
strip_from (suc fuel) _ = []

unfoldable pub ext_bytes_wo_padding : List ℕ → List ℕ
unfolding strip_from
ext_bytes_wo_padding ext_bytes = strip_from (length ext_bytes) ext_bytes

-- The length of the handshake message with its header, as the profile gives it.
unfoldable pub hello_len : Fingerprint → List ℕ → ℕ
hello_len profile ext_bytes =
    4
    + 2
    + 32
    + 1
    + profile.session_id_len
    + 2
    + length profile.raw_ciphers * 2
    + 1
    + length profile.compression
    + 2
    + length ext_bytes

-- Fresh padding up to 512 bytes where the message has 256 to 511 without it. A repetition fewer than
-- 0 times is empty, as the subtraction here is.
unfoldable pub pad : Bool → Fingerprint → List ℕ → Result (List ℕ)
pad true profile ext_bytes = ok ext_bytes
pad false profile ext_bytes =
    let base = ext_bytes_wo_padding ext_bytes in
    let fixed = hello_len profile base in
    if leb pad_lo fixed && ltb fixed pad_to
    then (do
      padding ← pack_extension padding_ext (replicate (pad_to - fixed - 4) 0)
      ok (base ++ padding))
    else ok base
