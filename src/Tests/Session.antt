-- ===== src/Tests/Session.antt =====
-- A handshake with a server whose messages are written out, and a library that seals by appending zeros.
use browserfp.Prelude.{
  ℕ, ◌-◌, ◌≤◌, ◌≡◌, refl, ap, ◌∙◌, List, [], ◌∷◌, ◌++◌, length, length-append, length-replicate,
  take, drop, take-append, replicate, Option, some, none, Result, ok, arith,
}
use browserfp.Prelude.Ends.{Ends}
use browserfp.Bytes.{byte_at, slice, u16_at, u24_at, pack8, pack16}
use browserfp.Text.{Text, text}
use browserfp.Builder.Vec.{vec}
use browserfp.Tls.Library.{sha256, aes_gcm, size_of, Library, IsSound}
use browserfp.Tls.Schedule.{
  Keys, cipher_params, derive_secret, hkdf_extract, hkdf_expand_label, hkdf_expand, expand_from,
  keys_of, next_nonce,
}
use browserfp.Tls.Schedule.Length.{hkdf_expand-total}
use browserfp.Tls.Client.{Client, single}
use browserfp.Tls.Handshake.{Given, send_hello, shared_secret, x25519_secret}
use browserfp.Tls.Session.{
  handshake_secrets, finished_message, application_keys, finish, negotiate, handshake,
}
use browserfp.Tls.Stream.{recv_from, recv_exact, read_record}
use browserfp.Tls.Utf8.{decode_from, decode_utf8}
use browserfp.Tls.ServerHello.{
  record_behind_ccs, server_share, server_extensions, server_fields, take_server_hello,
  read_server_hello, alpn_from, parse_encrypted_extensions,
}
use browserfp.Tls.Flight.{take_message, take_messages, flight_from, read_server_flight}
use browserfp.Tls.Record.{split_type, decrypt_record, send_encrypted, send, read}
use browserfp.Tls.Pieces.{whole, settled}
use browserfp.Tls.Whole.{handshake-pieces, read-whole}
use browserfp.Tls.Delivery.{advanced, read-send}
use browserfp.Tls.Draining.{left}
use browserfp.Tls.Ending.{read-Ends}
use browserfp.Tls.Termination.{handshake-Ends}
use browserfp.Tests.Samples.{zero_rng, sample_profile}

abbrev plain_library : Library
plain_library = record {
  digest = λ h m. replicate (size_of h) 7;
  hmac = λ h k m. replicate (size_of h) 9;
  seal = λ a k n plain ad. plain ++ replicate 16 0;
  open_sealed = λ a k n sealed ad. some (take (length sealed - 16) sealed);
  fresh = λ n. replicate 32 n;
  x25519_public = λ k. k;
  x25519 = λ k p. some p;
  mlkem_public = λ k. k;
  decapsulate = λ k c. some c;
  curve_public = λ g k. k;
  curve_point = λ g p. some p;
  ecdh = λ g k p. some p;
}

opened :
    (plain : List ℕ)
    → take (length (plain ++ replicate 16 0) - 16) (plain ++ replicate 16 0) ≡ plain
opened plain =
    ap (λ n. take n (plain ++ replicate 16 0)) (omega (arith, length-append plain (replicate 16 0)))
    ∙ take-append plain (replicate 16 0)

plain_library-IsSound : IsSound plain_library
plain_library-IsSound = record {
  length-digest = λ h m. length-replicate (size_of h) 7;
  length-hmac = λ h k m. length-replicate (size_of h) 9;
  open-seal = λ a k n plain ad. ap some (opened plain);
  length-seal = λ a k n plain ad. length-append plain (replicate 16 0);
}

-- ServerHello with a key share of X25519, then EncryptedExtensions with ALPN, and Finished.
abbrev server_hello : List ℕ
server_hello =
    0x16
    ∷ 0x03
    ∷ 0x03
    ∷ 0
    ∷ 84
    ∷ 2
    ∷ 0
    ∷ 0
    ∷ 80
    ∷ 0x03
    ∷ 0x03
    ∷ (replicate 32 1
        ++ (0 ∷ 0x13 ∷ 0x01 ∷ 0 ∷ 0 ∷ 40 ∷ 0 ∷ 0x33 ∷ 0 ∷ 36 ∷ 0 ∷ 0x1d ∷ 0 ∷ 32 ∷ replicate 32 5))

abbrev server_flight : List ℕ
server_flight =
    0x17
    ∷ 0x03
    ∷ 0x03
    ∷ 0
    ∷ 36
    ∷ 8
    ∷ 0
    ∷ 0
    ∷ 11
    ∷ 0
    ∷ 9
    ∷ 0
    ∷ 16
    ∷ 0
    ∷ 5
    ∷ 0
    ∷ 3
    ∷ 2
    ∷ 104
    ∷ 50
    ∷ 20
    ∷ 0
    ∷ 0
    ∷ 0
    ∷ 0x16
    ∷ replicate 16 0

abbrev client_of : List ℕ → List (List ℕ) → Client
client_of inbuf incoming = record {
  incoming = incoming;
  inbuf = inbuf;
  outgoing = [];
  transcript = [];
  plainbuf = [];
  negotiated_alpn = none;
  cipher_suite = none;
  negotiated_group = none;
  privs = [];
  grease = none;
  client_hello = [];
  rx = none;
  tx = none;
  draws = 0;
}

-- In three pieces that cut both records, and in one.
abbrev in_pieces : Client
in_pieces = client_of [] (
    take 3 server_hello ∷ (drop 3 server_hello ++ take 9 server_flight) ∷ drop 9 server_flight ∷ [])

abbrev in_one : Client
in_one = client_of (server_hello ++ server_flight) []

abbrev own_hello : Given
own_hello = some (replicate 9 1, (0x001d, single (1 ∷ [])) ∷ [])

abbrev alpn_of : Result (Unit {0} × Client) → Option Text
alpn_of (ok (done, c)) = c.negotiated_alpn
alpn_of _ = none

handshake_run :
    alpn_of (handshake plain_library zero_rng sample_profile none own_hello in_pieces)
    ≡ some (text "h2")
unfolding handshake negotiate finish send_hello read_server_hello take_server_hello
    record_behind_ccs read_record recv_exact recv_from server_fields server_extensions server_share
    u16_at u24_at byte_at slice cipher_params shared_secret x25519_secret handshake_secrets
    finished_message application_keys derive_secret hkdf_extract hkdf_expand_label hkdf_expand
    expand_from keys_of pack8 pack16 vec read_server_flight flight_from take_messages take_message
    parse_encrypted_extensions alpn_from decode_utf8 decode_from decrypt_record split_type
    next_nonce send_encrypted
handshake_run = refl

handshake-pieces_example :
    settled (handshake plain_library zero_rng sample_profile none own_hello in_pieces)
    ≡ settled (handshake plain_library zero_rng sample_profile none own_hello in_one)
handshake-pieces_example =
    handshake-pieces plain_library zero_rng sample_profile none own_hello in_pieces in_one refl

read-whole_example : read plain_library (whole in_pieces) ≡ settled (read plain_library in_pieces)
read-whole_example = read-whole plain_library in_pieces

handshake-Ends_example :
    Ends (handshake plain_library zero_rng sample_profile none own_hello in_pieces)
    × ((done : Unit {0}) (d : Client)
        → handshake plain_library zero_rng sample_profile none own_hello in_pieces ≡ ok (done, d)
        → left d ≤ left in_pieces)
handshake-Ends_example =
    handshake-Ends plain_library plain_library-IsSound zero_rng sample_profile none own_hello
      in_pieces

read-Ends_example : Ends (read plain_library in_one)
read-Ends_example = read-Ends plain_library in_one

abbrev sample_keys : Keys
sample_keys = record { aead = aes_gcm; key = replicate 16 1; iv = replicate 12 2; seq = 5 }

abbrev sender : Client
sender = record (client_of [] []) { tx = some sample_keys }

abbrev receiver : Client
receiver = record (client_of [] []) { rx = some sample_keys }

read-send_example :
    (w : List ℕ) × (send plain_library (1 ∷ 2 ∷ []) sender
      ≡ ok (2, record sender { outgoing = w ∷ []; tx = some (advanced sample_keys) }))
    × (read plain_library (record receiver { inbuf = w ++ (7 ∷ []); incoming = [] })
        ≡ ok (
          1 ∷ 2 ∷ [],
          record receiver {
            inbuf = 7 ∷ [];
            incoming = [];
            rx = some (advanced sample_keys);
            plainbuf = [];
          },
        ))
read-send_example =
    read-send plain_library plain_library-IsSound (1 ∷ 2 ∷ []) (7 ∷ []) sender receiver sample_keys
      (omega arith) (omega arith) refl refl (omega arith) refl

hkdf_expand-total_example :
    (r : List ℕ) × (hkdf_expand plain_library sha256 [] [] 42 ≡ ok r) × (length r ≡ 42)
hkdf_expand-total_example =
    hkdf_expand-total plain_library plain_library-IsSound sha256 [] [] 42 (omega arith)
