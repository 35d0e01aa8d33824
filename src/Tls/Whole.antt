-- ===== src/Tls/Whole.antt =====
-- The methods of `TLS13Client` of oracle/tls13.py and the pieces of the stream that `sock.recv` returns.
use browserfp.Prelude.{
  ℕ, zero, suc, ◌≡◌, refl, ap, sym, ◌∙◌, List, [], ◌∷◌, ◌++◌, length, Option, none, some, leb, ◌==◌,
}
use browserfp.ClientHello.Fingerprint.{Fingerprint}
use browserfp.Builder.Draw.{Secrets}
use browserfp.Tls.Library.{Hash, Aead, Library}
use browserfp.Tls.Client.{Client, Run, here, update, ◌>>◌, Private, add_transcript, send_all}
use browserfp.Tls.Stream.{read_record}
use browserfp.Tls.Record.{decrypt_record, send_encrypted, alert, read_loop, read}
use browserfp.Tls.ServerHello.{
  record_behind_ccs, retry_transcript, take_server_hello, read_server_hello,
  parse_encrypted_extensions,
}
use browserfp.Tls.Flight.{take_message, take_messages, flight_from, read_server_flight}
use browserfp.Tls.Handshake.{
  Given, fresh_key, gen_one_share, gen_from, gen_shares, first_hello, second_hello, send_hello,
  retry,
}
use browserfp.Tls.Session.{finish, negotiate, handshake}
use browserfp.Tls.Pieces.{
  IsSteady, whole, settled, steady, update-IsSteady, read_record-IsSteady, bind-IsSteady,
  if-IsSteady,
}

pub add_transcript-IsSteady : (b : List ℕ) → IsSteady (add_transcript b)
add_transcript-IsSteady b = update-IsSteady _ (λ c. refl)

pub send_all-IsSteady : (b : List ℕ) → IsSteady (send_all b)
send_all-IsSteady b = update-IsSteady _ (λ c. refl)

ruleset steps = (steady, read_record-IsSteady, refl)

record_behind_ccs-IsSteady : (fuel : ℕ) → IsSteady (record_behind_ccs fuel)
unfolding record_behind_ccs
record_behind_ccs-IsSteady zero = search steps
record_behind_ccs-IsSteady (suc fuel) = bind-IsSteady _ _ read_record-IsSteady (λ r.
    if-IsSteady (r.0 == 0x14) _ (here (λ c. r)) (record_behind_ccs-IsSteady fuel) (search steps))

take_message-IsSteady : (htype : ℕ) (msg : List ℕ) → IsSteady (take_message htype msg)
unfolding take_message parse_encrypted_extensions
take_message-IsSteady htype msg = search steps depth 20

take_messages-IsSteady : (fuel : ℕ) (pending : List ℕ) → IsSteady (take_messages fuel pending)
unfolding take_messages
take_messages-IsSteady zero pending = search steps
take_messages-IsSteady (suc fuel) pending =
    search (steps, take_message-IsSteady, take_messages-IsSteady fuel) depth 20

module _ (lib : Library) where
  take_server_hello-IsSteady : (r : ℕ × List ℕ × List ℕ) → IsSteady (take_server_hello lib r)
  unfolding take_server_hello retry_transcript
  take_server_hello-IsSteady (ctype, head, body) = search steps depth 30

  read_server_hello-IsSteady : IsSteady (read_server_hello lib)
  unfolding read_server_hello
  read_server_hello-IsSteady =
      search (steps, record_behind_ccs-IsSteady, take_server_hello-IsSteady)

  decrypt_record-IsSteady : (head payload : List ℕ) → IsSteady (decrypt_record lib head payload)
  unfolding decrypt_record
  decrypt_record-IsSteady head payload = search steps depth 20

  send_encrypted-IsSteady : (sent : List ℕ) (inner : ℕ) → IsSteady (send_encrypted lib sent inner)
  unfolding send_encrypted
  send_encrypted-IsSteady sent inner = search steps depth 20

  alert-IsSteady : (plain : List ℕ) → IsSteady (alert lib plain)
  unfolding alert
  alert-IsSteady plain = search steps depth 20

  hand_over-IsSteady :
      (held : List ℕ) → IsSteady (update (λ c. record c { plainbuf = [] }) >> here (λ c. held))
  hand_over-IsSteady held = search steps

  keep-IsSteady :
      (plain : List ℕ) (k : Run (List ℕ))
      → IsSteady k
      → IsSteady (update (λ c. record c { plainbuf = c.plainbuf ++ plain }) >> k)
  keep-IsSteady plain k hk = search (steps, hk)

  read_loop-IsSteady : (fuel : ℕ) → IsSteady (read_loop lib fuel)
  unfolding read_loop
  read_loop-IsSteady zero = search steps
  read_loop-IsSteady (suc fuel) = bind-IsSteady (here (λ c. c.plainbuf)) _ (search steps) (λ held.
      if-IsSteady (leb 1 (length held)) _ _ (hand_over-IsSteady held) (
        bind-IsSteady read_record _ read_record-IsSteady (λ r.
          if-IsSteady (r.0 == 0x14) _ _ (read_loop-IsSteady fuel) (
            bind-IsSteady (decrypt_record lib r.1 r.2) _ (decrypt_record-IsSteady _ _) (λ p.
              if-IsSteady (p.0 == 0x16) _ _ (read_loop-IsSteady fuel) (
                if-IsSteady (p.0 == 0x15) _ _ (alert-IsSteady p.1)
                  (keep-IsSteady p.1 _ (read_loop-IsSteady fuel))))))))

  read-IsSteady : IsSteady (read lib)
  unfolding read
  read-IsSteady = search (steps, read_loop-IsSteady)

  flight_from-IsSteady : (fuel : ℕ) (pending : List ℕ) → IsSteady (flight_from lib fuel pending)
  unfolding flight_from
  flight_from-IsSteady zero pending = search steps
  flight_from-IsSteady (suc fuel) pending =
      search (steps, decrypt_record-IsSteady, take_messages-IsSteady, flight_from-IsSteady fuel)
        depth 30

  read_server_flight-IsSteady : IsSteady (read_server_flight lib)
  unfolding read_server_flight
  read_server_flight-IsSteady = search (steps, flight_from-IsSteady)

  fresh_key-IsSteady : IsSteady (fresh_key lib)
  fresh_key-IsSteady = record { steady = λ c. refl }

  ruleset draws_key = (fresh_key-IsSteady)

  gen_one_share-IsSteady : (group : ℕ) → IsSteady (gen_one_share lib group)
  unfolding gen_one_share
  gen_one_share-IsSteady group = search (steps, draws_key) depth 30

  gen_from-IsSteady :
      (shape : List (ℕ × ℕ)) (pubs : List (ℕ × List ℕ)) (privs : List (ℕ × Private))
      → IsSteady (gen_from lib shape pubs privs)
  unfolding gen_from
  gen_from-IsSteady [] pubs privs = search steps
  gen_from-IsSteady ((group, plen) ∷ shape) pubs privs =
      search (steps, draws_key, gen_from-IsSteady shape) depth 30

  gen_shares-IsSteady : (profile : Fingerprint) → IsSteady (gen_shares lib profile)
  unfolding gen_shares
  gen_shares-IsSteady profile = search (steps, gen_from-IsSteady)

  finish-IsSteady :
      (h : Hash) (aead : Aead) (key_len : ℕ) (shared : List ℕ)
      → IsSteady (finish lib h aead key_len shared)
  unfolding finish
  finish-IsSteady h aead key_len shared =
      search (steps, read_server_flight-IsSteady, send_encrypted-IsSteady) depth 40

  module _ (rng : Secrets) (profile : Fingerprint) (sni : Option (List ℕ)) where
    first_hello-IsSteady :
        (shares : List (ℕ × List ℕ)) → IsSteady (first_hello lib rng profile sni shares)
    unfolding first_hello
    first_hello-IsSteady shares = search steps depth 20

    second_hello-IsSteady : (hrr : ℕ × List ℕ) → IsSteady (second_hello lib rng profile sni hrr)
    unfolding second_hello
    second_hello-IsSteady hrr = search steps depth 30

    send_hello-IsSteady : (given : Given) → IsSteady (send_hello lib rng profile sni given)
    unfolding send_hello
    send_hello-IsSteady none =
        search
          (
            steps, add_transcript-IsSteady, send_all-IsSteady, gen_shares-IsSteady,
            first_hello-IsSteady,
          )
          depth 30
    send_hello-IsSteady (some (hello, privs)) =
        search (steps, add_transcript-IsSteady, send_all-IsSteady) depth 30

    retry-IsSteady : IsSteady (retry lib rng profile sni)
    unfolding retry
    retry-IsSteady =
        search (steps, gen_one_share-IsSteady, second_hello-IsSteady, read_server_hello-IsSteady)
          depth 40

    negotiate-IsSteady : (given : Given) → IsSteady (negotiate lib rng profile sni given)
    unfolding negotiate
    negotiate-IsSteady given =
        search (steps, send_hello-IsSteady, read_server_hello-IsSteady, retry-IsSteady) depth 30

    handshake-IsSteady : (given : Given) → IsSteady (handshake lib rng profile sni given)
    unfolding handshake
    handshake-IsSteady given = search (steps, negotiate-IsSteady, finish-IsSteady) depth 40

    -- Clients that differ only in the pieces in which the same stream reaches them (how `recv` cuts it,
    -- and how much of it is in the buffer already) come out of `handshake` with the same exception or
    -- the same state, again up to the pieces of what is left: keys, transcript, messages sent, protocol
    -- and cipher.
    pub handshake-pieces :
        (given : Given) (c d : Client)
        → whole c ≡ whole d
        → settled (handshake lib rng profile sni given c)
          ≡ settled (handshake lib rng profile sni given d)
    handshake-pieces given c d h =
        sym ((handshake-IsSteady given).steady c)
        ∙ ap (handshake lib rng profile sni given) h
        ∙ (handshake-IsSteady given).steady d

  -- `read` on the answers of `recv` refines `read` on a buffer that holds the whole stream: it gives the
  -- same bytes or the same exception, and leaves the same state, up to the pieces of what is left.
  pub read-whole : (c : Client) → read lib (whole c) ≡ settled (read lib c)
  read-whole c = read-IsSteady.steady c
