-- ===== src/Derive/Delta.antt =====
-- `apply_delta` of oracle/derive.py.
use browserfp.Prelude.{ℕ, Bool, not, List, [], ◌∷◌, ◌++◌, filter, elem, ◌==◌, if◌then◌else◌, none}
use browserfp.Text.{Text}
use browserfp.ClientHello.Fingerprint.{Fingerprint}
use browserfp.ClientHello.Ja.{Ja4Fields, ja4}

-- What the sources of the browser say that the platform leaves out.
pub record Delta : Type 0 where
  pub drop_sct : Bool
  pub drop_mlkem : Bool
  pub drop_ech : Bool

abbrev pub sct_ext : ℕ
sct_ext = 0x0012

abbrev pub ech_ext : ℕ
ech_ext = 0xFE0D

abbrev pub mlkem_group : ℕ
mlkem_group = 0x11EC

-- `drop_ext`
unfoldable pub dropped : Delta → List ℕ
dropped delta =
    (if delta.drop_sct then sct_ext ∷ [] else []) ++ (if delta.drop_ech then ech_ext ∷ [] else [])

unfoldable pub kept_curves : Delta → List ℕ → List ℕ
kept_curves delta curves =
    if delta.drop_mlkem then filter (λ c. not (c == mlkem_group)) curves else curves

-- The dictionary that `ja4` is given: profiles of the library have no SNI.
unfoldable pub profile_fields : Fingerprint → Ja4Fields
profile_fields tls = record {
  sni = none;
  ciphers = tls.ciphers;
  extensions = tls.extensions_ordered;
  sig_algs = tls.sig_algs;
  alpn = tls.alpn;
  supported_versions = tls.supported_versions;
  client_version = tls.client_version;
}

module _ (sha256 : Text → Text) where
  -- The lists that lose something, and then JA4 again.
  unfoldable pub apply_delta : Fingerprint → Delta → Fingerprint
  unfolding dropped kept_curves profile_fields
  apply_delta tls delta =
      let out = record tls {
        extensions_ordered = filter (λ e. not (elem e (dropped delta))) tls.extensions_ordered;
        raw_extensions = filter (λ e. not (elem e (dropped delta))) tls.raw_extensions;
        extension_bodies = filter (λ b. not (elem b.0 (dropped delta))) tls.extension_bodies;
        curves = kept_curves delta tls.curves;
      } in
      record out { ja4 = ja4 sha256 (profile_fields out) }
