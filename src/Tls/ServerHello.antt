-- ===== src/Tls/ServerHello.antt =====
-- `_read_server_hello` and `_parse_encrypted_extensions` of oracle/tls13.py.
use browserfp.Prelude.{
  ℕ, zero, suc, ◌+◌, ◌-◌, ◌≡◌, Bool, true, false, not, ◌&&◌, List, [], ◌∷◌, ◌++◌, length, ltb, leb,
  ◌==◌, if◌then◌else◌, Option, some, none, maybe, Result, ok, err, stuck, raise_if, or_raise,
  not_handshake_type, not_server_hello, no_key_share, unsupported_cipher,
}
use browserfp.Prelude
use browserfp.Bytes.{byte_at, slice, u16_at}
use browserfp.Text.{Text}
use browserfp.Pattern.{is_some, same_text}
use browserfp.Tls.Library.{Library, sha256}
use browserfp.Tls.Schedule.{cipher_params}
use browserfp.Tls.Client.{Run, ◌>>=◌, ◌>>◌, lift, here, update, add_transcript}
use browserfp.Tls.Stream.{read_record, rounds}
use browserfp.Tls.Utf8.{decode_utf8}

-- The random of a HelloRetryRequest.
abbrev pub hrr_random : List ℕ
hrr_random =
    0xcf ∷ 0x21 ∷ 0xad ∷ 0x74 ∷ 0xe5 ∷ 0x9a ∷ 0x61 ∷ 0x11 ∷ 0xbe ∷ 0x1d ∷ 0x8c ∷ 0x02 ∷ 0x1e ∷ 0x65
    ∷ 0xb8 ∷ 0x91 ∷ 0xc2 ∷ 0xa2 ∷ 0x11 ∷ 0x16 ∷ 0x7a ∷ 0xbb ∷ 0x8c ∷ 0x5e ∷ 0x07 ∷ 0x9e ∷ 0x09
    ∷ 0xe2 ∷ 0xc8 ∷ 0xa8 ∷ 0x33 ∷ 0x9c ∷ []

-- `while True: … if ctype != 0x14: break`
unfoldable pub record_behind_ccs : ℕ → Run (ℕ × List ℕ × List ℕ)
record_behind_ccs zero = lift stuck
record_behind_ccs (suc fuel) = do
  r ← read_record
  (let again = record_behind_ccs fuel in if r.0 == 0x14 then again else here (λ c. r))

-- What the key share of the server says: the group, and the key, of which a retry has none.
unfoldable pub server_share : Bool → List ℕ → Result (List ℕ × ℕ)
server_share is_hrr ebody = Prelude.◌>>=◌ (u16_at ebody 0) λ group.
    if is_hrr
    then ok ([], group)
    else Prelude.◌>>=◌ (u16_at ebody 2) λ klen. ok (slice ebody 4 (4 + klen), group)

-- The loop over the extensions; each takes four bytes at least.
unfoldable pub server_extensions :
    ℕ → Bool → List ℕ → ℕ → ℕ → Option (List ℕ × ℕ) → Result (Option (List ℕ × ℕ))
unfolding server_share
server_extensions zero is_hrr body o end share = stuck
server_extensions (suc fuel) is_hrr body o end share =
    let round = Prelude.◌>>=◌ (u16_at body o) λ eid. Prelude.◌>>=◌ (u16_at body (o + 2)) λ elen.
      let other = server_extensions fuel is_hrr body (o + 4 + elen) end share in
      let own =
        Prelude.◌>>=◌ (server_share is_hrr (slice body (o + 4) (o + 4 + elen)))
          λ s. server_extensions fuel is_hrr body (o + 4 + elen) end (some s) in
      if eid == 0x0033 then own else other in
    if ltb o end then round else ok share

-- From the session id on: the cipher, and the key share.
unfoldable pub server_fields : Bool → List ℕ → Result (ℕ × Option (List ℕ × ℕ))
unfolding server_extensions
server_fields is_hrr body = Prelude.◌>>=◌ (byte_at body 38) λ sid_len.
    Prelude.◌>>=◌ (u16_at body (39 + sid_len)) λ cipher.
      Prelude.◌>>=◌ (u16_at body (42 + sid_len)) λ ext_total.
        Prelude.◌>>=◌
          (server_extensions (suc (length body)) is_hrr body (44 + sid_len)
            (44 + sid_len + ext_total) none)
          λ share. ok (cipher, share)

-- A retry puts the hash of the first ClientHello in its place in the transcript.
unfoldable pub retry_transcript : Library → Run (Unit {0})
retry_transcript lib = update λ c.
    let digest = lib.digest sha256 c.transcript in
    record c { transcript = 254 ∷ 0 ∷ 0 ∷ length digest ∷ digest }

-- What a record says that is no ChangeCipherSpec: the server's key, the cipher, and whether this is a
-- retry.
unfoldable pub take_server_hello : Library → ℕ × List ℕ × List ℕ → Run (List ℕ × ℕ × Bool)
unfolding server_fields retry_transcript
take_server_hello lib (ctype, head, body) = do
  lift (raise_if (not (ctype == 0x16)) not_handshake_type)
  htype ← lift (byte_at body 0)
  lift (raise_if (not (htype == 2)) not_server_hello)
  let is_hrr = same_text (slice body 6 38) hrr_random
  (if is_hrr then retry_transcript lib else update (λ c. c))
  add_transcript body
  (cipher, share) ← lift (server_fields is_hrr body)
  update (λ c. record c { negotiated_group = maybe share (λ s. some s.1) c.negotiated_group })
  server_pub ← lift (or_raise no_key_share (maybe share (λ s. some s.0) none))
  lift (raise_if (not (is_some (cipher_params cipher))) unsupported_cipher)
  here (λ c. (server_pub, cipher, is_hrr))

unfoldable pub read_server_hello : Library → Run (List ℕ × ℕ × Bool)
unfolding record_behind_ccs take_server_hello
read_server_hello lib = do n ← here rounds; r ← record_behind_ccs n; take_server_hello lib r

-- The loop over the encrypted extensions: the protocol that was chosen, if one was.
unfoldable pub alpn_from : ℕ → List ℕ → ℕ → ℕ → Option Text → Result (Option Text)
unfolding decode_utf8
alpn_from zero msg o end alpn = stuck
alpn_from (suc fuel) msg o end alpn =
    let round = Prelude.◌>>=◌ (u16_at msg o) λ eid. Prelude.◌>>=◌ (u16_at msg (o + 2)) λ elen.
      let ebody = slice msg (o + 4) (o + 4 + elen) in
      let other = alpn_from fuel msg (o + 4 + elen) end alpn in
      let own = Prelude.◌>>=◌ (byte_at ebody 2) λ n.
        Prelude.◌>>=◌ (decode_utf8 (slice ebody 3 (3 + n)))
          λ name. alpn_from fuel msg (o + 4 + elen) end (some name) in
      if eid == 0x0010 && leb 3 (length ebody) then own else other in
    if ltb o end then round else ok alpn

unfoldable pub parse_encrypted_extensions : List ℕ → Run (Unit {0})
unfolding alpn_from
parse_encrypted_extensions msg = do
  total ← lift (u16_at msg 4)
  before ← here (λ c. c.negotiated_alpn)
  alpn ← lift (alpn_from (suc (length msg)) msg 6 (6 + total) before)
  update (λ c. record c { negotiated_alpn = alpn })
