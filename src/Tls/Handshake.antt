-- ===== src/Tls/Handshake.antt =====
-- `handshake` of oracle/tls13.py, with the keys it generates and the ClientHello it sends.
use browserfp.Prelude.{
  ℕ, zero, suc, ◌+◌, ◌-◌, ◌≡◌, Bool, true, false, not, ◌&&◌, ◌||◌, List, [], ◌∷◌, ◌++◌, length,
  take, drop, replicate, lookup, put, get_or, ◌==◌, if◌then◌else◌, Option, some, none, maybe,
  Result, ok, err, raise_if, or_raise, value_error, key_error, attribute_error, index_error,
  retry_without_key, second_retry, wrong_server_share, group_not_implemented,
}
use browserfp.Prelude
use browserfp.Bytes.{byte_at, slice}
use browserfp.Text.{Text, from_hex}
use browserfp.ClientHello.Grease.{is_grease}
use browserfp.ClientHello.Parse.{parse_client_hello}
use browserfp.ClientHello.Fingerprint.{Fingerprint}
use browserfp.Builder.Draw.{Secrets}
use browserfp.Builder.Regrease.{pick_grease}
use browserfp.Builder.KeyShare.{parse_key_share}
use browserfp.Builder.Build.{build_client_hello}
use browserfp.Tls.Library.{sha256, Library}
use browserfp.Tls.Client.{
  Private, single, hybrid, Run, ◌>>=◌, ◌>>◌, lift, here, update, set_already, drawing, send_all,
  add_transcript,
}
use browserfp.Tls.ServerHello.{read_server_hello}

abbrev pub x25519_group : ℕ
x25519_group = 0x001D

abbrev pub mlkem_group : ℕ
mlkem_group = 0x11EC

abbrev pub is_curve : ℕ → Bool
is_curve g = g == 0x0017 || g == 0x0018

-- The caller's own ClientHello with its private keys, if it gives one.
abbrev pub Given : Type 0
Given = Option (List ℕ × List (ℕ × Private))

-- The ECH extension of the first ClientHello, which the second repeats.
unfoldable pub kept_ech : Option Text → Result (Option (List ℕ))
kept_ech none = ok none
kept_ech (some t) = Prelude.◌>>=◌ (from_hex t) (λ b. ok (some b))

module _ (lib : Library) where
  -- One of the `generate` functions.
  abbrev pub fresh_key : Run (List ℕ)
  fresh_key c = ok (lib.fresh c.draws, record c { draws = suc c.draws })

  abbrev pub fresh_hybrid : Run (List ℕ × Private)
  fresh_hybrid = do
    mk ← fresh_key
    xk ← fresh_key
    here (λ c. (lib.mlkem_public mk ++ lib.x25519_public xk, hybrid mk xk))

  abbrev pub fresh_single : (List ℕ → List ℕ) → Run (List ℕ × Private)
  fresh_single public = do k ← fresh_key; here (λ c. (public k, single k))

  -- `_gen_one_share`
  unfoldable pub gen_one_share : ℕ → Run (Option (List ℕ × Private))
  gen_one_share group =
      if group == x25519_group
      then (do p ← fresh_single lib.x25519_public; here (λ c. some p))
      else if group == mlkem_group
      then (do p ← fresh_hybrid; here (λ c. some p))
      else if is_curve group
      then (do p ← fresh_single (lib.curve_public group); here (λ c. some p))
      else here (λ c. none)

  -- The loop of `_gen_shares`: GREASE, and a group that cannot be generated, has no key.
  unfoldable pub gen_from :
      List (ℕ × ℕ)
      → List (ℕ × List ℕ)
      → List (ℕ × Private)
      → Run (List (ℕ × List ℕ) × List (ℕ × Private))
  gen_from [] pubs privs = here (λ c. (pubs, privs))
  gen_from ((group, plen) ∷ shape) pubs privs =
      let skip = gen_from shape pubs privs in
      let with_key =
        λ (p : List ℕ × Private). gen_from shape (put group p.0 pubs) (put group p.1 privs) in
      if is_grease group
      then skip
      else if group == x25519_group
      then fresh_single lib.x25519_public >>= with_key
      else if group == mlkem_group
      then fresh_hybrid >>= with_key
      else if group == 0x0017 && plen == 65
      then fresh_single (lib.curve_public 0x0017) >>= with_key
      else skip

  -- `_gen_shares`, by the key share of the profile.
  unfoldable pub gen_shares : Fingerprint → Run (List (ℕ × List ℕ) × List (ℕ × Private))
  unfolding gen_from
  gen_shares profile = do
    body ← lift (maybe (lookup 0x0033 profile.extension_bodies) from_hex (ok []))
    gen_from (parse_key_share body) [] []

  module _ (rng : Secrets) (profile : Fingerprint) (sni : Option (List ℕ)) where
    -- `_build_hello(shares)`: the first ClientHello, whose GREASE is kept.
    unfoldable pub first_hello : List (ℕ × List ℕ) → Run (List ℕ)
    first_hello shares = do
      grease ← drawing (pick_grease rng false)
      update (λ c. record c { grease = some grease })
      drawing (
          build_client_hello (lib.digest sha256) 0 rng profile (record {
            sni = sni;
            key_shares = shares;
            verbatim = false;
            hrr_group = none;
            grease = grease;
            random32 = none;
            session_id = none;
            ech_body = none;
            record_version = 0x0301;
            permute = false;
          }))

    -- `_build_hello(None, hrr)`: the second, with the random, the session id, the GREASE and the ECH of
    -- the first.
    unfoldable pub second_hello : (ℕ × List ℕ) → Run (List ℕ)
    second_hello hrr = do
      ch1 ← here (λ c. c.client_hello)
      sid_len ← lift (byte_at ch1 43)
      parsed ← lift (parse_client_hello ch1)
      grease ← set_already (λ c. c.grease)
      ech ← lift (kept_ech (lookup 0xfe0d parsed.extension_bodies))
      drawing (
          build_client_hello (lib.digest sha256) 0 rng profile (record {
            sni = sni;
            key_shares = [];
            verbatim = false;
            hrr_group = some hrr;
            grease = grease;
            random32 = some (slice ch1 11 43);
            session_id = some (slice ch1 44 (44 + sid_len));
            ech_body = ech;
            record_version = 0x0303;
            permute = false;
          }))

    -- The ClientHello that goes out: the caller's, or one of ours with fresh keys.
    unfoldable pub send_hello : Given → Run (Unit {0})
    unfolding gen_shares first_hello
    send_hello given = do
      hello ← own_hello given
      update (λ c. record c { client_hello = hello })
      add_transcript (drop 5 hello)
      send_all hello
      where
        own_hello : Given → Run (List ℕ)
        own_hello (some (hello, privs)) = do
          update (λ c. record c { privs = privs })
          here (λ c. hello)
        own_hello none = do
          (shares, privs) ← gen_shares profile
          update (λ c. record c { privs = privs })
          first_hello shares

    -- After a HelloRetryRequest: a key of the group that the server asks for, and the second hello.
    unfoldable pub retry : Run (List ℕ × ℕ)
    unfolding gen_one_share second_hello
    retry = do
      g ← set_already (λ c. c.negotiated_group)
      made ← gen_one_share g
      (pub_key, priv) ← lift (or_raise retry_without_key made)
      update (λ c. record c { privs = put g priv c.privs })
      hello ← second_hello (g, pub_key)
      add_transcript (drop 5 hello)
      send_all hello
      (server_pub, cipher, again) ← read_server_hello lib
      lift (raise_if again second_retry)
      here (λ c. (server_pub, cipher))

  unfoldable pub hybrid_secret : List ℕ → List ℕ → List ℕ → Result (List ℕ)
  hybrid_secret mk xk server_pub =
      Prelude.◌>>=◌ (or_raise value_error (lib.decapsulate mk (take 1088 server_pub))) λ a.
        Prelude.◌>>=◌ (or_raise value_error (lib.x25519 xk (drop 1088 server_pub))) λ b. ok (a ++ b)

  -- With our key of the group, if there is one. A key of the wrong kind has no method for the exchange.
  unfoldable pub mlkem_secret : Option Private → List ℕ → Result (List ℕ)
  unfolding hybrid_secret
  mlkem_secret none server_pub = err key_error
  mlkem_secret (some (single k)) server_pub = err attribute_error
  mlkem_secret (some (hybrid mk xk)) server_pub = hybrid_secret mk xk server_pub

  abbrev pub curve_exchange : ℕ → Option Private → List ℕ → Result (List ℕ)
  curve_exchange group none peer = err key_error
  curve_exchange group (some (single k)) peer = or_raise value_error (lib.ecdh group k peer)
  curve_exchange group (some (hybrid mk xk)) peer = err attribute_error

  -- The server's point is decoded before our key is looked up.
  unfoldable pub curve_secret : ℕ → Option Private → List ℕ → Result (List ℕ)
  curve_secret group p server_pub =
      Prelude.◌>>=◌ (or_raise value_error (lib.curve_point group server_pub))
        (λ peer. curve_exchange group p peer)

  unfoldable pub x25519_secret : Option Private → List ℕ → Result (List ℕ)
  x25519_secret none server_pub = err group_not_implemented
  x25519_secret (some (single k)) server_pub = or_raise value_error (lib.x25519 k server_pub)
  x25519_secret (some (hybrid mk xk)) server_pub = err attribute_error

  -- The secret that the negotiated group and the server's key make with our private key.
  unfoldable pub shared_secret : ℕ → List (ℕ × Private) → List ℕ → Result (List ℕ)
  unfolding mlkem_secret curve_secret x25519_secret
  shared_secret group privs server_pub =
      if group == mlkem_group
      then Prelude.◌>>◌ (raise_if (not (length server_pub == 1120)) wrong_server_share)
          (mlkem_secret (lookup mlkem_group privs) server_pub)
      else if is_curve group
      then curve_secret group (lookup group privs) server_pub
      else x25519_secret (lookup x25519_group privs) server_pub
