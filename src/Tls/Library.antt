-- ===== src/Tls/Library.antt =====
-- What oracle/tls13.py takes from hashlib, hmac and the package `cryptography`, as a parameter.
use browserfp.Prelude.{ℕ, ◌+◌, ◌≡◌, List, length, Option, some}

pub data Hash : Type 0 where
  sha256 sha384 : Hash

pub data Aead : Type 0 where
  aes_gcm chacha20_poly1305 : Aead

-- `digest_size`
abbrev pub size_of : Hash → ℕ
size_of sha256 = 32
size_of sha384 = 48

-- Keys are bytes. `fresh n` is the private key that the `n`-th call of a `generate` makes; a public key
-- belongs to a private one. What can refuse its input is an option: a decryption with a wrong tag, and
-- a public key or a ciphertext of the peer; `curve_point` is `from_encoded_point`. `seal` and `open` take an AEAD's key, the nonce, the text
-- and the associated data.
pub record Library : Type 0 where
  pub digest : Hash → List ℕ → List ℕ
  pub hmac : Hash → List ℕ → List ℕ → List ℕ
  pub seal : Aead → List ℕ → List ℕ → List ℕ → List ℕ → List ℕ
  pub open_sealed : Aead → List ℕ → List ℕ → List ℕ → List ℕ → Option (List ℕ)
  pub fresh : ℕ → List ℕ
  pub x25519_public : List ℕ → List ℕ
  pub x25519 : List ℕ → List ℕ → Option (List ℕ)
  pub mlkem_public : List ℕ → List ℕ
  pub decapsulate : List ℕ → List ℕ → Option (List ℕ)
  pub curve_public : ℕ → List ℕ → List ℕ
  pub curve_point : ℕ → List ℕ → Option (List ℕ)
  pub ecdh : ℕ → List ℕ → List ℕ → Option (List ℕ)

-- What the documentation says: the lengths of digests, and that what was sealed is opened again. A
-- sealed text is 16 bytes longer.
pub record IsSound (lib : Library) : Type 0 where
  pub length-digest : (h : Hash) (m : List ℕ) → length (lib.digest h m) ≡ size_of h
  pub length-hmac : (h : Hash) (k m : List ℕ) → length (lib.hmac h k m) ≡ size_of h
  pub open-seal :
      (a : Aead) (key nonce plain ad : List ℕ)
      → lib.open_sealed a key nonce (lib.seal a key nonce plain ad) ad ≡ some plain
  pub length-seal :
      (a : Aead) (key nonce plain ad : List ℕ)
      → length (lib.seal a key nonce plain ad) ≡ length plain + 16
