-- ===== src/Prelude/Results.antt =====
-- Python exceptions as values: `err` carries the class of the exception, or the site that raises it
-- where one class is raised at several. `stuck` is no Python outcome: a loop ran out of its fuel.
use mathlib.Core.Path.{◌≡◌, refl}
use mathlib.Core.Bool.{Bool, true, false}
use mathlib.Core.Option.{Option, none, some}

pub data Error : Type 0 where
  -- `ParseError` and `QuicError`, one constructor for each `raise`
  record_too_short not_a_handshake truncated_record not_a_client_hello : Error
  no_ip_header truncated_tcp not_a_syn : Error
  varint_out_of_range varint_truncated not_a_long_header not_an_initial : Error
  no_crypto_frame crypto_gap not_a_hello too_few_bytes hello_incomplete invalid_tag : Error
  -- `TLSError`
  connection_closed not_handshake_type not_server_hello no_key_share unsupported_cipher : Error
  all_padding wrong_record_type wrong_inner_type retry_without_key second_retry : Error
  wrong_server_share group_not_implemented peer_alert : Error
  -- exceptions of the language and its library
  index_error struct_error value_error key_error overflow_error attribute_error : Error
  -- `ValueError`s of the builder that say what the caller did wrong
  resumption_profile unknown_group wrong_key_length : Error

pub data Result {ℓ} (A : Type ℓ) : Type ℓ where
  stuck : Result A
  err : Error → Result A
  ok : A → Result A

-- `raise error`, where no value is to follow.
abbrev pub or_raise {ℓ} : {A : Type ℓ} → Error → Option A → Result A
or_raise error (some value) = ok value
or_raise error none = err error

-- `if wrong: raise error`
abbrev pub raise_if : Bool → Error → Result (Unit {0})
raise_if wrong error = elim wrong [ false ↦ ok tt | true ↦ err error ]

module _ {ℓ κ} {A : Type ℓ} {B : Type κ} where
  infixl 5 ◌>>=◌
  -- One statement after the other: an exception leaves the function.
  abbrev pub ◌>>=◌ : Result A → (A → Result B) → Result B
  stuck >>= next = stuck
  err error >>= next = err error
  ok value >>= next = next value

  pub >>=-eq-ok :
      (first : Result A) (next : A → Result B) {result : B}
      → (first >>= next) ≡ ok result
      → (value : A) × (first ≡ ok value) × (next value ≡ ok result)
  >>=-eq-ok stuck next h = cc
  >>=-eq-ok (err error) next h = cc
  >>=-eq-ok (ok value) next h = (value, refl, h)

infixl 5 ◌>>◌
abbrev pub ◌>>◌ {κ} : {B : Type κ} → Result (Unit {0}) → Result B → Result B
check >> rest = check >>= (λ done. rest)

pub ok-injective {ℓ} : {A : Type ℓ} {a b : A} → ok a ≡ ok b → a ≡ b
ok-injective h = cc

-- The same, for a proof that goes on with the value and both equations.
pub ok_bind {ℓ κ μ} :
    {A : Type ℓ} {B : Type κ} {P : Type μ} (m : Result A) (f : A → Result B) {b : B}
    → (m >>= f) ≡ ok b
    → ((a : A) → m ≡ ok a → f a ≡ ok b → P)
    → P
ok_bind (ok a) f h k = k a refl h
ok_bind (err e) f h k = absurd (cc)
ok_bind stuck f h k = absurd (cc)
