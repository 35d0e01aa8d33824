-- ===== src/Builder/Build.antt =====
-- `build_client_hello` of oracle/chbuild.py.
use browserfp.Prelude.{
  ℕ, Bool, true, false, not, ◌&&◌, List, [], ◌∷◌, ◌++◌, elem, lookup, get_or, replicate, ◌==◌,
  if◌then◌else◌, Option, some, none, maybe, Result, ok, raise_if, resumption_profile,
}
use browserfp.ClientHello.Grease.{is_grease}
use browserfp.ClientHello.Fingerprint.{Fingerprint}
use browserfp.Builder.Vec.{pack_extension}
use browserfp.Builder.Draw.{Secrets, Draw, ◌>>=◌, lift, draw_bytes}
use browserfp.Builder.Regrease.{Grease, pick_grease, regrease_list, regrease_u16_body}
use browserfp.Builder.Ech.{grease_ech}
use browserfp.Builder.KeyShare.{build_key_share}
use browserfp.Builder.Permute.{psk_ext, permute_extensions}
use browserfp.Builder.Padding.{pad}
use browserfp.Builder.Assemble.{
  decode_bodies, insert_sni, sni_body, hrr_body, hello_bytes, record_bytes,
}

-- The keyword arguments. `sni` holds the bytes of the encoded name; no key shares is `[]`.
pub record Options : Type 0 where
  pub sni : Option (List ℕ)
  pub key_shares : List (ℕ × List ℕ)
  pub verbatim : Bool
  pub hrr_group : Option (ℕ × List ℕ)
  pub grease : Option Grease
  pub random32 : Option (List ℕ)
  pub session_id : Option (List ℕ)
  pub ech_body : Option (List ℕ)
  pub record_version : ℕ
  pub permute : Bool

-- What a set of GREASE values changes; without one nothing does.
abbrev pub regreased : Option Grease → (Grease → List ℕ → List ℕ) → List ℕ → List ℕ
regreased none f xs = xs
regreased (some g) f xs = f g xs

abbrev pub group_of : Option Grease → Option ℕ
group_of none = none
group_of (some g) = some g.group

-- The key shares to inject: a retry rewrites the extension, and injects none.
abbrev pub injected : Options → List (ℕ × List ℕ)
injected args = elim args.hrr_group [ none ↦ args.key_shares | some h ↦ [] ]

abbrev is_cons {ℓ} : {A : Type ℓ} → List A → Bool
is_cons [] = false
is_cons (x ∷ xs) = true

-- A profile of a resumed session cannot take fresh key shares: its ticket is not ours.
abbrev pub refuse_resumption : Options → Fingerprint → Result (Unit {0})
refuse_resumption args profile =
    raise_if (is_cons (injected args) && elem psk_ext profile.raw_extensions) resumption_profile

module _ (rng : Secrets) where
  -- `given or secrets.token_bytes(n)`: an empty byte string is false.
  unfoldable pub bytes_or_draw : ℕ → Option (List ℕ) → Draw (List ℕ)
  bytes_or_draw n none = draw_bytes rng n
  bytes_or_draw n (some []) = draw_bytes rng n
  bytes_or_draw n (some (b ∷ bs)) = lift (ok (b ∷ bs))

  unfoldable pub session_or_draw : ℕ → Option (List ℕ) → Draw (List ℕ)
  session_or_draw n none = draw_bytes rng n
  session_or_draw n (some s) = lift (ok s)

  unfoldable pub grease_or_pick : Bool → Option Grease → Draw (Option Grease)
  grease_or_pick verbatim none = pick_grease rng verbatim
  grease_or_pick verbatim (some g) = lift (ok (some g))

  module _ (args : Options) (bodies : List (ℕ × List ℕ)) (grease : Option Grease) where
    -- The body of one extension.
    unfoldable pub extension_body : ℕ → Draw (List ℕ)
    extension_body e =
        let golden = get_or [] (lookup e bodies) in
        if is_grease e
        then lift (ok golden)
        else if e == 0x0000
        then elim args.sni [ some name ↦ lift (sni_body name) | none ↦ lift (ok golden) ]
        else if e == 0x0033
        then elim args.hrr_group [
          | some h ↦ lift (hrr_body h.0 h.1)
          | none ↦ build_key_share rng golden args.key_shares (group_of grease)
        ]
        else if e == 0x000a
        then lift (maybe grease (λ g. regrease_u16_body golden 2 g.group) (ok golden))
        else if e == 0x002b
        then lift (maybe grease (λ g. regrease_u16_body golden 1 g.version) (ok golden))
        else if e == 0xfe0d
        then elim args.ech_body [
          | some ech ↦ lift (ok ech)
          | none ↦ grease_ech rng golden none args.verbatim
        ]
        else lift (ok golden)

    -- `for ext_id in ext_order: ext_bytes += …`
    unfoldable pub extension_bytes : List ℕ → Draw (List ℕ)
    extension_bytes [] = lift (ok [])
    extension_bytes (e ∷ es) = do
      body ← extension_body e
      entry ← lift (pack_extension e body)
      rest ← extension_bytes es
      lift (ok (entry ++ rest))

-- `random32 or b"\0" * 32`
abbrev pub seed : Option (List ℕ) → List ℕ
seed none = replicate 32 0
seed (some []) = replicate 32 0
seed (some (b ∷ bs)) = b ∷ bs

-- The order of the extensions: SNI, then GREASE, then the permutation.
module _ (sha256 : List ℕ → List ℕ) (fuel : ℕ) where
  unfoldable pub extension_order : Options → Option Grease → List ℕ → Result (List ℕ)
  extension_order args grease raw_extensions =
      let order =
        regreased grease (λ g es. regrease_list es g.ext) (insert_sni args.sni raw_extensions) in
      if args.permute && not args.verbatim
      then permute_extensions sha256 (seed args.random32) fuel order
      else ok order

  unfoldable pub build_client_hello : Secrets → Fingerprint → Options → Draw (List ℕ)
  build_client_hello rng profile args = do
    _ ← lift (refuse_resumption args profile)
    bodies ← lift (decode_bodies profile.extension_bodies)
    grease ← grease_or_pick rng args.verbatim args.grease
    let ciphers = regreased grease (λ g cs. regrease_list cs (g.cipher ∷ [])) profile.raw_ciphers
    order ← lift (extension_order args grease profile.raw_extensions)
    block ← extension_bytes rng args bodies grease order
    padded ← lift (pad args.verbatim profile block)
    random ← bytes_or_draw rng 32 args.random32
    session ← session_or_draw rng profile.session_id_len args.session_id
    hello ←
        lift (hello_bytes profile.client_version random session ciphers profile.compression padded)
    lift (record_bytes args.record_version hello)
