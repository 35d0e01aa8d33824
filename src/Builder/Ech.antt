-- ===== src/Builder/Ech.antt =====
-- `ech_family` and `grease_ech` of oracle/chbuild.py.
use browserfp.Prelude.{
  ℕ, ◌+◌, ◌-◌, Bool, true, false, List, [], ◌∷◌, ◌++◌, length, get_elem?, elem, ltb, leb,
  if◌then◌else◌, Option, some, none, ok, err, value_error, index_error, or_raise,
}
use browserfp.Bytes.{u16_at, be16}
use browserfp.Builder.Vec.{vec}
use browserfp.Builder.Draw.{Secrets, Draw, ◌>>=◌, lift, draw_bytes, draw_below}

abbrev pub ech_body_lens : List ℕ
ech_body_lens = 186 ∷ 218 ∷ 250 ∷ 282 ∷ []

unfoldable pub ech_family : ℕ → Option (List ℕ)
ech_family golden_len = if elem golden_len ech_body_lens then some ech_body_lens else none

module _ (rng : Secrets) where
  -- A length drawn from the family; a negative one is refused where it is used.
  abbrev pub drawn_len : List ℕ → ℕ → Draw ℕ
  drawn_len fam enc_len = do
    k ← draw_below rng (length fam)
    body_len ← lift (or_raise index_error (get_elem? fam k))
    lift (if ltb body_len (10 + enc_len) then err value_error else ok (body_len - 10 - enc_len))

  -- The length of the payload: given, copied, or fresh where the golden body is of the family.
  unfoldable pub ech_payload_len : List ℕ → ℕ → Option ℕ → Bool → Draw ℕ
  ech_payload_len golden enc_len given true = lift (u16_at golden (8 + enc_len))
  ech_payload_len golden enc_len (some n) false = lift (ok n)
  ech_payload_len golden enc_len none false = elim (ech_family (length golden)) [
    | some fam ↦ drawn_len fam enc_len
    | none ↦ lift (u16_at golden (8 + enc_len))
  ]

  -- The outer form of draft-ietf-tls-esni with fresh contents, in the shape of the golden body.
  unfoldable pub grease_ech : List ℕ → Option ℕ → Bool → Draw (List ℕ)
  unfolding ech_payload_len
  grease_ech golden given verbatim = if leb (length golden) 7 then lift (ok []) else (do
    kdf ← lift (u16_at golden 1)
    aead ← lift (u16_at golden 3)
    enc_len ← lift (u16_at golden 6)
    payload_len ← ech_payload_len golden enc_len given verbatim
    config_id ← draw_bytes rng 1
    enc ← draw_bytes rng enc_len
    payload ← draw_bytes rng payload_len
    enc_vec ← lift (vec enc 2)
    payload_vec ← lift (vec payload 2)
    lift (ok (0 ∷ (be16 kdf ++ (be16 aead ++ (config_id ++ (enc_vec ++ payload_vec)))))))
