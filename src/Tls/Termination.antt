-- ===== src/Tls/Termination.antt =====
-- How `handshake` of oracle/tls13.py ends: the keys, the hellos and the flights together.
use browserfp.Prelude.{
  ℕ, zero, suc, ◌+◌, ◌<◌, ◌≤◌, ◌≡◌, refl, List, [], ◌∷◌, ◌++◌, length, length-append, ltb, Option,
  none, some, maybe, lookup, ok, arith,
}
use browserfp.Prelude.Ends.{
  Ends, Ends-ok, Ends-err, Ends-if, Ends-bind, Ends-or_raise, Ends-raise_if, ends_rules,
}
use browserfp.Bytes.Range.{byte_at-Ends}
use browserfp.Text.{Text, from_hex}
use browserfp.ClientHello.Fingerprint.{Fingerprint}
use browserfp.ClientHello.Termination.{parse_client_hello-Ends}
use browserfp.Builder.Draw.{Secrets}
use browserfp.Builder.Packing.{pack8-Ends, pack16-Ends, vec-Ends, from_hex-Ends}
use browserfp.Builder.Ending.{pick_grease-IsEnding, build_client_hello-IsEnding}
use browserfp.Builder.KeyShare.{parse_key_share}
use browserfp.Tls.Library.{Hash, Aead, Library, IsSound}
use browserfp.Tls.Schedule.{expand_from, hkdf_expand, hkdf_expand_label, derive_secret, keys_of}
use browserfp.Tls.Schedule.Length.{size_positive}
use browserfp.Tls.Client.{Client, Private, single, hybrid}
use browserfp.Tls.Handshake.{
  Given, fresh_key, gen_one_share, gen_from, gen_shares, kept_ech, first_hello, second_hello,
  send_hello, retry, mlkem_secret, curve_exchange, curve_secret, x25519_secret, shared_secret,
  hybrid_secret,
}
use browserfp.Tls.Session.{
  handshake_secrets, finished_message, application_keys, finish, negotiate, handshake,
}
use browserfp.Tls.Draining.{
  left, EndsBelow, bind-EndsBelow, if-EndsBelow, lift-EndsBelow, here-EndsBelow, update-EndsBelow,
  drawing-EndsBelow, set_already-EndsBelow,
}
use browserfp.Tls.Ending.{
  add_transcript-EndsBelow, read_server_hello-EndsBelow, read_server_flight-EndsBelow,
  send_encrypted-EndsBelow,
}

kept_ech-Ends : (o : Option Text) → Ends (kept_ech o)
unfolding kept_ech
kept_ech-Ends none = Ends-ok _
kept_ech-Ends (some t) = search (ends_rules, from_hex-Ends)

module _ (lib : Library) (sound : IsSound lib) where
  module _ (h : Hash) where
    expand_from-Ends :
        (fuel : ℕ) (prk info : List ℕ) (size : ℕ) (out t : List ℕ) (i : ℕ)
        → 0 < fuel
        → size < fuel + length out
        → Ends (expand_from lib h fuel prk info size out t i)
    unfolding expand_from
    expand_from-Ends zero prk info size out t i h0 hf = absurd (omega arith)
    expand_from-Ends (suc fuel) prk info size out t i h0 hf =
        Ends-if (ltb (length out) size) _ _
          (λ e. Ends-bind _ _ (pack8-Ends i) (λ b _.
            let u = lib.hmac h prk (t ++ (info ++ b)) in
            let grown = length-append out u in
            let digest = sound.length-hmac h prk (t ++ (info ++ b)) in
            expand_from-Ends fuel prk info size (out ++ u) u (i + 1) (ground arith)
              (omega (arith, grown, digest, size_positive h))))
          (λ _. Ends-ok _)

    hkdf_expand_label-Ends :
        (secret : List ℕ) (label : Text) (context : List ℕ) (size : ℕ)
        → Ends (hkdf_expand_label lib h secret label context size)
    unfolding hkdf_expand_label hkdf_expand
    hkdf_expand_label-Ends secret label context size = Ends-bind _ _ (pack16-Ends size) (λ n _.
        Ends-bind _ _ (vec-Ends _ 1) (λ l _. Ends-bind _ _ (vec-Ends context 1) (λ c _.
          expand_from-Ends (suc size) secret (n ++ (l ++ c)) size [] [] 1 (omega arith)
            (omega arith))))

    derive_secret-Ends :
        (secret : List ℕ) (label : Text) (messages : List ℕ)
        → Ends (derive_secret lib h secret label messages)
    unfolding derive_secret
    derive_secret-Ends secret label messages = hkdf_expand_label-Ends secret label _ _

    keys_of-Ends :
        (secret : List ℕ) (aead : Aead) (key_len : ℕ) → Ends (keys_of lib h secret aead key_len)
    unfolding keys_of
    keys_of-Ends secret aead key_len = search (ends_rules, hkdf_expand_label-Ends)

    module _ (aead : Aead) (key_len : ℕ) where
      handshake_secrets-Ends :
          (shared transcript : List ℕ)
          → Ends (handshake_secrets lib h aead key_len shared transcript)
      unfolding handshake_secrets
      handshake_secrets-Ends shared transcript =
          search (Ends-bind, Ends-ok, derive_secret-Ends, keys_of-Ends) depth 20

      finished_message-Ends :
          (client after_server : List ℕ)
          → Ends (finished_message lib h aead key_len client after_server)
      unfolding finished_message
      finished_message-Ends client after_server =
          search (Ends-bind, Ends-ok, hkdf_expand_label-Ends, vec-Ends) depth 20

      application_keys-Ends :
          (secret after_server : List ℕ)
          → Ends (application_keys lib h aead key_len secret after_server)
      unfolding application_keys
      application_keys-Ends secret after_server =
          search (Ends-bind, Ends-ok, derive_secret-Ends, keys_of-Ends) depth 20

      finish-EndsBelow : (n : ℕ) (shared : List ℕ) → EndsBelow n (finish lib h aead key_len shared)
      unfolding finish
      finish-EndsBelow n shared =
          search
            (
              bind-EndsBelow, lift-EndsBelow, here-EndsBelow, update-EndsBelow,
              handshake_secrets-Ends, finished_message-Ends, application_keys-Ends,
              read_server_flight-EndsBelow, send_encrypted-EndsBelow, add_transcript-EndsBelow,
            )
            depth 40

  mlkem_secret-Ends :
      (p : Option Private) (server_pub : List ℕ) → Ends (mlkem_secret lib p server_pub)
  unfolding mlkem_secret hybrid_secret
  mlkem_secret-Ends none server_pub = Ends-err _
  mlkem_secret-Ends (some (single k)) server_pub = Ends-err _
  mlkem_secret-Ends (some (hybrid mk xk)) server_pub = search ends_rules

  curve_exchange-Ends :
      (group : ℕ) (p : Option Private) (peer : List ℕ) → Ends (curve_exchange lib group p peer)
  curve_exchange-Ends group none peer = Ends-err _
  curve_exchange-Ends group (some (single k)) peer = Ends-or_raise _ _
  curve_exchange-Ends group (some (hybrid mk xk)) peer = Ends-err _

  curve_secret-Ends :
      (group : ℕ) (p : Option Private) (server_pub : List ℕ)
      → Ends (curve_secret lib group p server_pub)
  unfolding curve_secret
  curve_secret-Ends group p server_pub = search (ends_rules, curve_exchange-Ends)

  x25519_secret-Ends :
      (p : Option Private) (server_pub : List ℕ) → Ends (x25519_secret lib p server_pub)
  unfolding x25519_secret
  x25519_secret-Ends none server_pub = Ends-err _
  x25519_secret-Ends (some (single k)) server_pub = Ends-or_raise _ _
  x25519_secret-Ends (some (hybrid mk xk)) server_pub = Ends-err _

  shared_secret-Ends :
      (group : ℕ) (privs : List (ℕ × Private)) (server_pub : List ℕ)
      → Ends (shared_secret lib group privs server_pub)
  unfolding shared_secret
  shared_secret-Ends group privs server_pub =
      search (ends_rules, mlkem_secret-Ends, curve_secret-Ends, x25519_secret-Ends)

  fresh_key-EndsBelow : (n : ℕ) → EndsBelow n (fresh_key lib)
  fresh_key-EndsBelow n =
      drawing-EndsBelow n (λ i. ok (lib.fresh i, suc i)) (record { ending = λ i. Ends-ok _ })

  ruleset steps = (
    bind-EndsBelow, if-EndsBelow, lift-EndsBelow, here-EndsBelow, update-EndsBelow, refl,
    fresh_key-EndsBelow, Ends-ok, Ends-err, Ends-or_raise, Ends-raise_if,
  )

  gen_one_share-EndsBelow : (n group : ℕ) → EndsBelow n (gen_one_share lib group)
  unfolding gen_one_share
  gen_one_share-EndsBelow n group = search steps depth 30

  gen_from-EndsBelow :
      (n : ℕ) (shape : List (ℕ × ℕ)) (pubs : List (ℕ × List ℕ)) (privs : List (ℕ × Private))
      → EndsBelow n (gen_from lib shape pubs privs)
  unfolding gen_from
  gen_from-EndsBelow n [] pubs privs = here-EndsBelow n _
  gen_from-EndsBelow n ((group, plen) ∷ shape) pubs privs =
      search (steps, gen_from-EndsBelow n shape) depth 30

  gen_shares-EndsBelow : (n : ℕ) (profile : Fingerprint) → EndsBelow n (gen_shares lib profile)
  unfolding gen_shares
  gen_shares-EndsBelow n profile =
      bind-EndsBelow n _ _ (lift-EndsBelow n _ (body-Ends (lookup 0x0033 profile.extension_bodies)))
        (λ body. gen_from-EndsBelow n (parse_key_share body) [] [])
    where
      body-Ends : (o : Option Text) → Ends (maybe o from_hex (ok []))
      body-Ends none = Ends-ok _
      body-Ends (some t) = from_hex-Ends t

  module _ (rng : Secrets) (profile : Fingerprint) (sni : Option (List ℕ)) where
    first_hello-EndsBelow :
        (n : ℕ) (shares : List (ℕ × List ℕ)) → EndsBelow n (first_hello lib rng profile sni shares)
    unfolding first_hello
    first_hello-EndsBelow n shares =
        search (steps, drawing-EndsBelow, pick_grease-IsEnding rng, build_client_hello-IsEnding rng)
          depth 30

    second_hello-EndsBelow :
        (n : ℕ) (hrr : ℕ × List ℕ) → EndsBelow n (second_hello lib rng profile sni hrr)
    unfolding second_hello
    second_hello-EndsBelow n hrr =
        search
          (
            steps,
            drawing-EndsBelow,
            build_client_hello-IsEnding rng,
            kept_ech-Ends,
            set_already-EndsBelow,
            byte_at-Ends,
            parse_client_hello-Ends,
          )
          depth 30

    send_hello-EndsBelow :
        (n : ℕ) (given : Given) → EndsBelow n (send_hello lib rng profile sni given)
    unfolding send_hello
    send_hello-EndsBelow n none =
        search (steps, add_transcript-EndsBelow, gen_shares-EndsBelow, first_hello-EndsBelow) depth
          30
    send_hello-EndsBelow n (some (hello, privs)) = search (steps, add_transcript-EndsBelow) depth 30

    retry-EndsBelow : (n : ℕ) → EndsBelow n (retry lib rng profile sni)
    unfolding retry
    retry-EndsBelow n =
        search
          (
            steps, set_already-EndsBelow, gen_one_share-EndsBelow, second_hello-EndsBelow,
            add_transcript-EndsBelow, read_server_hello-EndsBelow,
          )
          depth 40

    negotiate-EndsBelow :
        (n : ℕ) (given : Given) → EndsBelow n (negotiate lib rng profile sni given)
    unfolding negotiate
    negotiate-EndsBelow n given =
        search (steps, send_hello-EndsBelow, read_server_hello-EndsBelow, retry-EndsBelow) depth 30

    handshake-EndsBelow :
        (n : ℕ) (given : Given) → EndsBelow n (handshake lib rng profile sni given)
    unfolding handshake
    handshake-EndsBelow n given =
        search
          (steps, set_already-EndsBelow, negotiate-EndsBelow, shared_secret-Ends, finish-EndsBelow)
          depth 40

    -- `handshake` comes to an end, whatever the profile, the caller's ClientHello and the bytes of the
    -- peer: it returns or raises, and leaves no more of the stream than there was. HMAC gives digests
    -- of their length.
    pub handshake-Ends :
        (given : Given) (c : Client)
        → Ends (handshake lib rng profile sni given c)
          × ((done : Unit {0}) (d : Client)
              → handshake lib rng profile sni given c ≡ ok (done, d)
              → left d ≤ left c)
    handshake-Ends given c =
        let run = (handshake-EndsBelow (suc (left c)) given).leaves c (omega arith) in
        (run.ends, run.less)
