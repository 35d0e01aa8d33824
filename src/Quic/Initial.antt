-- ===== src/Quic/Initial.antt =====
-- `parse_initial` of oracle/quic.py and its key schedule: from a datagram to the CRYPTO frames of its
-- Initial packet. HMAC, HKDF, AES and AES-GCM are another package's, and parameters here.
use browserfp.Prelude.{
  ℕ, zero, suc, ◌+◌, ◌*◌, ◌/◌, ◌%◌, Bool, false, not, List, [], ◌∷◌, ◌++◌, length, take, drop, set,
  ◌==◌, if◌then◌else◌, bit_xor, Option, Result, ok, err, raise_if, or_raise, ◌>>=◌, ◌>>◌,
  struct_error, value_error, invalid_tag, not_a_long_header, not_an_initial,
}
use browserfp.Prelude.Ends.{Ends, Ends-ok, Ends-err, Ends-bind}
use browserfp.Bytes.{byte_at, slice, be16}
use browserfp.Bytes.Range.{byte_at-Ends, reads_end}
use browserfp.Text.{Text, text}
use browserfp.Quic.Varint.{parse_varint, parse_varint-Ends}
use browserfp.Quic.Frames.{Chunk, crypto_frames, crypto_frames-Ends}

-- SHA-256's HMAC of a salt and an input; HKDF-Expand of a secret, an info and a length; AES in ECB mode
-- under a key, which refuses what is no whole number of blocks; AES-GCM's decryption of a payload under
-- a key, a nonce and the associated data, which refuses a wrong tag.
pub record Crypto : Type 0 where
  pub hmac : List ℕ → List ℕ → List ℕ
  pub hkdf_expand : List ℕ → List ℕ → ℕ → List ℕ
  pub aes_ecb : List ℕ → List ℕ → Option (List ℕ)
  pub aes_gcm : List ℕ → List ℕ → List ℕ → List ℕ → Option (List ℕ)

pub record Initial : Type 0 where
  pub version : ℕ
  pub dcid : List ℕ
  pub scid : List ℕ
  pub packet_number : ℕ
  pub crypto : List Chunk

abbrev pub initial_salt_v1 : List ℕ
initial_salt_v1 =
    0x38 ∷ 0x76 ∷ 0x2c ∷ 0xf7 ∷ 0xf5 ∷ 0x59 ∷ 0x34 ∷ 0xb3 ∷ 0x4d ∷ 0x17 ∷ 0x9a ∷ 0xe6 ∷ 0xa4 ∷ 0xc8
    ∷ 0x0c ∷ 0xad ∷ 0xcc ∷ 0xbb ∷ 0x7f ∷ 0x0a ∷ []

abbrev pub initial_salt_v2 : List ℕ
initial_salt_v2 =
    0x0d ∷ 0xed ∷ 0xe3 ∷ 0xde ∷ 0xf7 ∷ 0x00 ∷ 0xa6 ∷ 0xdb ∷ 0x81 ∷ 0x93 ∷ 0x81 ∷ 0xbe ∷ 0x6e ∷ 0x26
    ∷ 0x9d ∷ 0xcb ∷ 0xf9 ∷ 0xbd ∷ 0x2e ∷ 0xd9 ∷ []

abbrev pub version_v2 : ℕ
version_v2 = 0x6B3343CF

-- `struct.unpack_from(">I", b, o)[0]`
abbrev pub first_long : List ℕ → Result ℕ
first_long (w ∷ x ∷ y ∷ z ∷ rest) = ok (w * 16777216 + x * 65536 + y * 256 + z)
first_long _ = err struct_error

-- `int.from_bytes(bs, "big")`, given the value of what comes before, and `v.to_bytes(n, "big")`.
abbrev pub from_bytes : ℕ → List ℕ → ℕ
from_bytes v [] = v
from_bytes v (b ∷ bs) = from_bytes (v * 256 + b) bs

abbrev pub to_bytes : ℕ → ℕ → List ℕ
to_bytes zero v = []
to_bytes (suc n) v = to_bytes n (v / 256) ++ ((v % 256) ∷ [])

-- `bytes(a ^ b for a, b in zip(xs, ys))`
abbrev pub xor_bytes : List ℕ → List ℕ → List ℕ
xor_bytes (x ∷ xs) (y ∷ ys) = bit_xor x y ∷ xor_bytes xs ys
xor_bytes _ _ = []

-- `bytes(datagram[o + k] ^ mask[m + k] for k in range(n))`
unfoldable pub unmask : ℕ → List ℕ → ℕ → List ℕ → ℕ → Result (List ℕ)
unmask zero datagram o mask m = ok []
unmask (suc n) datagram o mask m = do
  x ← byte_at datagram o
  y ← byte_at mask m
  rest ← unmask n datagram (o + 1) mask (m + 1)
  ok (bit_xor x y ∷ rest)

-- `for k in range(pn_len): header[pn_offset + k] = pn_bytes[k]`
unfoldable pub put_bytes : List ℕ → ℕ → List ℕ → List ℕ
put_bytes [] o header = header
put_bytes (b ∷ bs) o header = put_bytes bs (o + 1) (set header o b)

abbrev pub has_long_header : List ℕ → Bool
has_long_header [] = false
has_long_header (b ∷ bs) = not (b / 128 % 2 == 0)

module _ (crypto : Crypto) where
  -- The labels are short constants, so that neither `struct.pack` nor `bytes` can raise.
  unfoldable pub expand_label : List ℕ → Text → ℕ → List ℕ
  expand_label secret label size =
      crypto.hkdf_expand secret
        (be16 size ++ ((6 + length label) ∷ text "tls13 " ++ (label ++ (0 ∷ [])))) size

  -- The key, the IV and the key of the header protection.
  unfoldable pub initial_secrets : List ℕ → ℕ → List ℕ × List ℕ × List ℕ
  initial_secrets dcid version =
      let salt = if version == version_v2 then initial_salt_v2 else initial_salt_v1 in
      let client = expand_label (crypto.hmac salt dcid) (text "client in") 32 in
      (
        expand_label client (text "quic key") 16,
        expand_label client (text "quic iv") 12,
        expand_label client (text "quic hp") 16,
      )

  -- From the packet number on: the header protection, the header, and the payload.
  unfoldable pub open_packet : List ℕ → ℕ → ℕ → List ℕ → List ℕ → List ℕ → Result (ℕ × List ℕ)
  unfolding unmask put_bytes
  open_packet datagram pn_offset size key iv hp = do
    mask ←
        or_raise value_error (crypto.aes_ecb hp (slice datagram (pn_offset + 4) (pn_offset + 20)))
    b ← byte_at datagram 0
    m ← byte_at mask 0
    let first = bit_xor b (m % 16)
    let pn_len = first % 4 + 1
    pn_bytes ← unmask pn_len datagram pn_offset mask 1
    let pn = from_bytes 0 pn_bytes
    let header = put_bytes pn_bytes pn_offset (set (take (pn_offset + pn_len) datagram) 0 first)
    let payload = slice datagram (pn_offset + pn_len) (pn_offset + size)
    let nonce = xor_bytes iv (to_bytes 12 pn)
    plain ← or_raise invalid_tag (crypto.aes_gcm key nonce payload header)
    ok (pn, plain)

  unfoldable pub parse_initial : List ℕ → Result Initial
  parse_initial datagram = do
    raise_if (not (has_long_header datagram)) not_a_long_header
    version ← first_long (drop 1 datagram)
    dcid_len ← byte_at datagram 5
    let dcid = slice datagram 6 (6 + dcid_len)
    scid_len ← byte_at datagram (6 + dcid_len)
    let scid = slice datagram (7 + dcid_len) (7 + dcid_len + scid_len)
    b ← byte_at datagram 0
    raise_if (not (b / 16 % 4 == 0)) not_an_initial
    (token_len, o) ← parse_varint datagram (7 + dcid_len + scid_len)
    (size, pn_offset) ← parse_varint datagram (o + token_len)
    let (key, iv, hp) = initial_secrets dcid version
    (pn, plain) ← open_packet datagram pn_offset size key iv hp
    chunks ← crypto_frames plain
    ok (record { version = version; dcid = dcid; scid = scid; packet_number = pn; crypto = chunks })

-- The JA4 of a handshake over QUIC: `q` in place of `t`.
unfoldable pub ja4q : Text → Text
ja4q [] = []
ja4q (c ∷ ja4) = if c == 116 then 113 ∷ ja4 else c ∷ ja4

first_long-Ends : (b : List ℕ) → Ends (first_long b)
first_long-Ends [] = Ends-err _
first_long-Ends (w ∷ []) = Ends-err _
first_long-Ends (w ∷ x ∷ []) = Ends-err _
first_long-Ends (w ∷ x ∷ y ∷ []) = Ends-err _
first_long-Ends (w ∷ x ∷ y ∷ z ∷ rest) = Ends-ok _

unmask-Ends :
    (n : ℕ) (datagram : List ℕ) (o : ℕ) (mask : List ℕ) (m : ℕ) → Ends (unmask n datagram o mask m)
unfolding unmask
unmask-Ends zero datagram o mask m = Ends-ok []
unmask-Ends (suc n) datagram o mask m =
    Ends-bind (byte_at datagram o) _ (byte_at-Ends datagram o) λ x _.
      Ends-bind (byte_at mask m) _ (byte_at-Ends mask m)
        λ y _. Ends-bind _ _ (unmask-Ends n datagram (o + 1) mask (m + 1)) (λ r _. Ends-ok _)

open_packet-Ends :
    (crypto : Crypto) (datagram : List ℕ) (pn_offset size : ℕ) (key iv hp : List ℕ)
    → Ends (open_packet crypto datagram pn_offset size key iv hp)
unfolding open_packet
open_packet-Ends crypto datagram pn_offset size key iv hp = search (reads_end, unmask-Ends) depth 20

-- Of any datagram, and whatever the cryptography answers, `parse_initial` returns the parts of an
-- Initial packet or raises: it does not go on for ever.
pub parse_initial-Ends :
    (crypto : Crypto) (datagram : List ℕ) → Ends (parse_initial crypto datagram)
unfolding parse_initial
parse_initial-Ends crypto datagram =
    search (reads_end, first_long-Ends, parse_varint-Ends, open_packet-Ends, crypto_frames-Ends)
      depth 40
