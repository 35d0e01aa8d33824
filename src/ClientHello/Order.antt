-- ===== src/ClientHello/Order.antt =====
-- `ja4` and `drop_sni` of oracle/clienthello.py on handshakes that differ in order, GREASE or SNI.
use browserfp.Prelude.{ℕ, ◌≡◌, refl, false, not, List, [], ◌∷◌, filter, elem, ◌==◌, none, arith}
use mathlib.Core.List.{Perm}
use browserfp.Prelude.Sort.{sort-perm, filter-perm, length-perm}
use browserfp.Text.{Text}
use browserfp.ClientHello.Grease.{drop_grease}
use browserfp.ClientHello.Parse.{Hello}
use browserfp.ClientHello.Ja.{Ja4Fields, ja4_fields, ja4_a, ja4_b, ja4_c, ja4, is_hashed}
use browserfp.ClientHello.Fingerprint.{drop_sni}

-- Two readings of one client: the same but for the order of the ciphers and of the extensions.
pub record SameClient (a b : Ja4Fields) : Type 0 where
  pub sni : a.sni ≡ b.sni
  pub ciphers : Perm a.ciphers b.ciphers
  pub extensions : Perm a.extensions b.extensions
  pub sig_algs : drop_grease a.sig_algs ≡ drop_grease b.sig_algs
  pub alpn : a.alpn ≡ b.alpn
  pub supported_versions : a.supported_versions ≡ b.supported_versions
  pub client_version : a.client_version ≡ b.client_version

module _ (sha256 : Text → Text) where
  module _ (a b : Ja4Fields) (s : SameClient a b) where
    ja4_a-same : ja4_a a ≡ ja4_a b
    unfolding ja4_a
    ja4_a-same = rw (
      s.sni,
      s.alpn,
      s.supported_versions,
      s.client_version,
      length-perm s.ciphers,
      length-perm s.extensions,
    )

    ja4_b-same : ja4_b sha256 a ≡ ja4_b sha256 b
    unfolding ja4_b
    ja4_b-same = rw (sort-perm s.ciphers)

    ja4_c-same : ja4_c sha256 a ≡ ja4_c sha256 b
    unfolding ja4_c
    ja4_c-same = rw (sort-perm (filter-perm is_hashed s.extensions), s.sig_algs)

    -- Two readings that are the same but for the order of the ciphers and of the extensions, and for
    -- GREASE values among the signature algorithms, have the same JA4.
    pub ja4-order : ja4 sha256 a ≡ ja4 sha256 b
    unfolding ja4
    ja4-order = rw (ja4_a-same, ja4_b-same, ja4_c-same)

hashed-without_sni :
    (es : List ℕ) → filter is_hashed (filter (λ e. not (e == 0)) es) ≡ filter is_hashed es
hashed-without_sni [] = refl
hashed-without_sni (e ∷ es) = ground (arith, hashed-without_sni es)

elem-without_sni : (es : List ℕ) → elem 0 (filter (λ e. not (e == 0)) es) ≡ false
elem-without_sni [] = refl
elem-without_sni (e ∷ es) = ground (arith, elem-without_sni es)

-- Dropping the SNI leaves both hashes of JA4 as they were; what is left has no SNI and no
-- `server_name` extension.
pub drop_sni-hashes :
    (sha256 : Text → Text) (ch : Hello)
    → (ja4_b sha256 (ja4_fields (drop_sni ch)) ≡ ja4_b sha256 (ja4_fields ch))
      × (ja4_c sha256 (ja4_fields (drop_sni ch)) ≡ ja4_c sha256 (ja4_fields ch))
      × ((drop_sni ch).sni ≡ none)
      × (elem 0 (drop_sni ch).extensions ≡ false)
unfolding drop_sni ja4_fields ja4_b ja4_c
drop_sni-hashes sha256 ch =
    (refl, rw (hashed-without_sni ch.extensions), refl, elem-without_sni ch.extensions)
