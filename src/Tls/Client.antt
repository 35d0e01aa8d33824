-- ===== src/Tls/Client.antt =====
-- The state of `TLS13Client` of oracle/tls13.py, and computations on it that may raise.
use browserfp.Prelude.{
  ℕ, suc, Bool, List, [], ◌∷◌, ◌++◌, length, Option, some, none, Result, ok, err, attribute_error,
  or_raise, if◌then◌else◌,
}
use browserfp.Prelude
use browserfp.Text.{Text}
use browserfp.Builder.Draw.{Draw}
use browserfp.Builder.Regrease.{Grease}
use browserfp.Tls.Schedule.{Keys}

-- One private key, or that of ML-KEM and that of X25519.
pub data Private : Type 0 where
  single : List ℕ → Private
  hybrid : List ℕ → List ℕ → Private

-- `incoming` is what `sock.recv` returns in turn, and nothing behind it: then the peer has closed. What
-- `sendall` was given is in `outgoing`. An attribute that no method has set is none. `draws` counts the
-- draws of random bytes and of private keys.
pub record Client : Type 0 where
  pub incoming : List (List ℕ)
  pub inbuf : List ℕ
  pub outgoing : List (List ℕ)
  pub transcript : List ℕ
  pub plainbuf : List ℕ
  pub negotiated_alpn : Option Text
  pub cipher_suite : Option ℕ
  pub negotiated_group : Option ℕ
  pub privs : List (ℕ × Private)
  pub grease : Option (Option Grease)
  pub client_hello : List ℕ
  pub rx : Option Keys
  pub tx : Option Keys
  pub draws : ℕ

abbrev pub Run {ℓ} : Type ℓ → Type ℓ
Run A = Client → Result (A × Client)

infixl 5 ◌>>=◌ ◌>>◌
abbrev pub ◌>>=◌ {ℓ κ} : {A : Type ℓ} {B : Type κ} → Run A → (A → Run B) → Run B
◌>>=◌ m f c = Prelude.◌>>=◌ (m c) (λ r. f r.0 r.1)

abbrev pub ◌>>◌ {κ} : {B : Type κ} → Run (Unit {0}) → Run B → Run B
◌>>◌ m k = m >>= (λ done. k)

abbrev pub lift {ℓ} : {A : Type ℓ} → Result A → Run A
lift r c = Prelude.◌>>=◌ r (λ a. ok (a, c))

-- What `self` has, and what it has then.
abbrev pub here {ℓ} : {A : Type ℓ} → (Client → A) → Run A
here f c = ok (f c, c)

abbrev pub update : (Client → Client) → Run (Unit {0})
update f c = ok (tt, f c)

-- An attribute that must have been set.
abbrev pub set_already {ℓ} : {A : Type ℓ} → (Client → Option A) → Run A
set_already f c = Prelude.◌>>=◌ (or_raise attribute_error (f c)) (λ a. ok (a, c))

-- A computation of the builder.
abbrev pub drawing {ℓ} : {A : Type ℓ} → Draw A → Run A
drawing d c = Prelude.◌>>=◌ (d c.draws) (λ r. ok (r.0, record c { draws = r.1 }))

-- `sock.sendall`
abbrev pub send_all : List ℕ → Run (Unit {0})
send_all bytes = update (λ c. record c { outgoing = c.outgoing ++ (bytes ∷ []) })

-- `self.transcript += bytes`
abbrev pub add_transcript : List ℕ → Run (Unit {0})
add_transcript bytes = update (λ c. record c { transcript = c.transcript ++ bytes })
