-- ===== src/Tls/Session.antt =====
-- `handshake` of oracle/tls13.py as a whole: the two hellos, the key schedule, and the flights.
use browserfp.Prelude.{
  ℕ, List, [], ◌∷◌, replicate, if◌then◌else◌, Option, some, Result, ok, ◌>>=◌, or_raise, key_error,
}
use browserfp.Text.{text}
use browserfp.Builder.Vec.{vec}
use browserfp.Builder.Draw.{Secrets}
use browserfp.ClientHello.Fingerprint.{Fingerprint}
use browserfp.Tls.Library.{Hash, Aead, size_of, Library}
use browserfp.Tls.Schedule.{
  Keys, cipher_params, hkdf_extract, hkdf_expand_label, derive_secret, keys_of,
}
use browserfp.Tls.Client
use browserfp.Tls.Client.{Client, Run, ◌>>◌, lift, here, update, set_already, add_transcript}
use browserfp.Tls.Record.{send_encrypted}
use browserfp.Tls.ServerHello.{read_server_hello}
use browserfp.Tls.Flight.{read_server_flight}
use browserfp.Tls.Handshake.{Given, send_hello, retry, shared_secret}

-- What the handshake traffic secrets come to: the secret they were derived from, and the client's.
pub record HandshakeSecrets : Type 0 where
  pub hs_secret : List ℕ
  pub c_hs : List ℕ
  pub rx : Keys
  pub tx : Keys

module _ (lib : Library) (h : Hash) (aead : Aead) (key_len : ℕ) where
  abbrev pub zeros : List ℕ
  zeros = replicate (size_of h) 0

  unfoldable pub handshake_secrets : List ℕ → List ℕ → Result HandshakeSecrets
  handshake_secrets shared transcript = do
    derived ← derive_secret lib h (hkdf_extract lib h zeros zeros) (text "derived") []
    let secret = hkdf_extract lib h derived shared
    client ← derive_secret lib h secret (text "c hs traffic") transcript
    server ← derive_secret lib h secret (text "s hs traffic") transcript
    reading ← keys_of lib h server aead key_len
    writing ← keys_of lib h client aead key_len
    ok (record { hs_secret = secret; c_hs = client; rx = reading; tx = writing })

  -- The client's Finished message.
  unfoldable pub finished_message : List ℕ → List ℕ → Result (List ℕ)
  finished_message client after_server = do
    finished_key ← hkdf_expand_label lib h client (text "finished") [] (size_of h)
    body ← vec (lib.hmac h finished_key (lib.digest h after_server)) 3
    ok (20 ∷ body)

  -- The keys of the application data: those to write with, and those to read with.
  unfoldable pub application_keys : List ℕ → List ℕ → Result (Keys × Keys)
  application_keys secret after_server = do
    derived ← derive_secret lib h secret (text "derived") []
    let master = hkdf_extract lib h derived zeros
    client ← derive_secret lib h master (text "c ap traffic") after_server
    server ← derive_secret lib h master (text "s ap traffic") after_server
    writing ← keys_of lib h client aead key_len
    reading ← keys_of lib h server aead key_len
    ok (writing, reading)

  -- From the shared secret on.
  unfoldable pub finish : List ℕ → Run (Unit {0})
  unfolding handshake_secrets finished_message application_keys
  finish shared = Client.◌>>=◌ (here (λ c. c.transcript)) λ transcript.
      Client.◌>>=◌ (lift (handshake_secrets shared transcript)) λ s.
        update (λ c. record c { rx = some s.rx; tx = some s.tx })
        >> (read_server_flight lib
            >> Client.◌>>=◌ (here (λ c. c.transcript)) λ after_server.
              Client.◌>>=◌ (lift (finished_message s.c_hs after_server)) λ fin.
                send_encrypted lib fin 0x16
                >> (add_transcript fin
                    >> Client.◌>>=◌ (lift (application_keys s.hs_secret after_server))
                        λ k. update (λ c. record c { tx = some k.0; rx = some k.1 })))

-- The server's key and the cipher: of the first ServerHello, or of the one after a retry.
unfoldable pub negotiate :
    Library → Secrets → Fingerprint → Option (List ℕ) → Given → Run (List ℕ × ℕ)
negotiate lib rng profile sni given =
    send_hello lib rng profile sni given
    >> Client.◌>>=◌ (read_server_hello lib) λ (server_pub, cipher, is_hrr).
      update (λ c. record c { cipher_suite = some cipher })
      >> (if is_hrr then retry lib rng profile sni else here (λ c. (server_pub, cipher)))

-- `handshake`; the caller's ClientHello and keys come first if it gives them.
unfoldable pub handshake :
    Library → Secrets → Fingerprint → Option (List ℕ) → Given → Run (Unit {0})
unfolding finish negotiate
handshake lib rng profile sni given =
    Client.◌>>=◌ (negotiate lib rng profile sni given) λ (server_pub, cipher).
      update (λ c. record c { cipher_suite = some cipher })
      >> Client.◌>>=◌ (lift (or_raise key_error (cipher_params cipher))) λ (h, aead, key_len).
        Client.◌>>=◌ (set_already (λ c. c.negotiated_group)) λ group.
          Client.◌>>=◌ (here (λ c. c.privs)) λ privs.
            Client.◌>>=◌ (lift (shared_secret lib group privs server_pub))
              λ shared. finish lib h aead key_len shared
