-- ===== src/Tls/Schedule.antt =====
-- The key schedule of oracle/tls13.py: HKDF (RFC 5869), the labels of TLS 1.3, and the keys of one
-- direction with their sequence number.
pub mod Length
use browserfp.Prelude.{
  ℕ, zero, suc, ◌+◌, ◌-◌, ◌≡◌, ◌≤◌, ◌<◌, List, [], ◌∷◌, ◌++◌, length, take, drop, ltb,
  if◌then◌else◌, Option, some, none, lookup, Result, ok, err, stuck, ◌>>=◌, struct_error,
}
use browserfp.Bytes.{pack8, pack16}
use browserfp.Text.{Text, text}
use browserfp.Builder.Vec.{vec}
use browserfp.Quic.Initial.{to_bytes, xor_bytes}
use browserfp.Tls.Library.{Hash, sha256, sha384, Aead, aes_gcm, chacha20_poly1305, Library}

-- `CIPHER_PARAMS`
abbrev pub cipher_table : List (ℕ × (Hash × Aead × ℕ))
cipher_table =
    (0x1301, (sha256, aes_gcm, 16))
    ∷ (0x1302, (sha384, aes_gcm, 32))
    ∷ (0x1303, (sha256, chacha20_poly1305, 32))
    ∷ []

unfoldable pub cipher_params : ℕ → Option (Hash × Aead × ℕ)
cipher_params cipher = lookup cipher cipher_table

-- One direction: an AEAD, its key and IV, and the number of records so far.
pub record Keys : Type 0 where
  pub aead : Aead
  pub key : List ℕ
  pub iv : List ℕ
  pub seq : ℕ

module _ (lib : Library) (h : Hash) where
  unfoldable pub hkdf_extract : List ℕ → List ℕ → List ℕ
  hkdf_extract salt ikm = lib.hmac h salt ikm

  -- `while len(out) < length`; each round adds a digest, which is not empty, so `length + 1` rounds are
  -- enough. The counter has one byte.
  unfoldable pub expand_from : ℕ → List ℕ → List ℕ → ℕ → List ℕ → List ℕ → ℕ → Result (List ℕ)
  expand_from zero prk info size out t i = stuck
  expand_from (suc fuel) prk info size out t i =
      let round = (do
        b ← pack8 i
        let u = lib.hmac h prk (t ++ (info ++ b))
        expand_from fuel prk info size (out ++ u) u (i + 1)) in
      if ltb (length out) size then round else ok (take size out)

  unfoldable pub hkdf_expand : List ℕ → List ℕ → ℕ → Result (List ℕ)
  unfolding expand_from
  hkdf_expand prk info size = expand_from (suc size) prk info size [] [] 1

  unfoldable pub hkdf_expand_label : List ℕ → Text → List ℕ → ℕ → Result (List ℕ)
  hkdf_expand_label secret label context size = do
    n ← pack16 size
    l ← vec (text "tls13 " ++ label) 1
    c ← vec context 1
    hkdf_expand secret (n ++ (l ++ c)) size

  unfoldable pub derive_secret : List ℕ → Text → List ℕ → Result (List ℕ)
  derive_secret secret label messages =
      let d = lib.digest h messages in hkdf_expand_label secret label d (length d)

  -- `_Keys.__init__`
  unfoldable pub keys_of : List ℕ → Aead → ℕ → Result Keys
  keys_of secret aead key_len = do
    key ← hkdf_expand_label secret (text "key") [] key_len
    iv ← hkdf_expand_label secret (text "iv") [] 12
    ok (record { aead = aead; key = key; iv = iv; seq = 0 })

-- `_Keys.nonce`: the IV with the sequence number, in eight bytes, over its last eight; the next number.
unfoldable pub next_nonce : Keys → Result (List ℕ × Keys)
next_nonce k =
    if ltb k.seq 0x1_0000_0000_0000_0000
    then ok
        (take 4 k.iv ++ xor_bytes (drop 4 k.iv) (to_bytes 8 k.seq), record k { seq = suc k.seq })
    else err struct_error
