-- ===== src/ClientHello/Fingerprint.antt =====
-- `fingerprint` of oracle/clienthello.py: the structure that the golden files, the registry and the
-- builder share.
use browserfp.Prelude.{
  ℕ, Bool, not, List, filter, Option, none, ◌==◌, if◌then◌else◌, Result, ok, ◌>>=◌,
}
use browserfp.Text.{Text}
use browserfp.ClientHello.Parse.{Hello, parse_client_hello}
use browserfp.ClientHello.Ja.{ja4_fields, ja3 as ja3_of, ja4 as ja4_of}

pub record Fingerprint : Type 0 where
  pub ja4 : Text
  pub ja3 : Text
  pub ja3_hash : Text
  pub raw_ciphers : List ℕ
  pub raw_extensions : List ℕ
  pub extension_bodies : List (ℕ × Text)
  pub compression : List ℕ
  pub client_version : ℕ
  pub ciphers : List ℕ
  pub extensions_ordered : List ℕ
  pub curves : List ℕ
  pub sig_algs : List ℕ
  pub alpn : List Text
  pub supported_versions : List ℕ
  pub psk_modes : List ℕ
  pub cert_compression : List ℕ
  pub record_size_limit : Option ℕ
  pub app_settings : List Text
  pub point_formats : List ℕ
  pub ech : Bool
  pub has_grease : Bool
  pub session_id_len : ℕ

abbrev without_sni : List ℕ → List ℕ
without_sni = filter (λ e. not (e == 0x0000))

-- `drop_sni=True`: the handshake as it would be with no `server_name`.
unfoldable pub drop_sni : Hello → Hello
drop_sni ch = record ch {
  known = record ch.known { sni = none };
  extensions = without_sni ch.extensions;
  raw_extensions = without_sni ch.raw_extensions;
  extension_bodies = filter (λ e. not (e.0 == 0x0000)) ch.extension_bodies;
}

module _ (md5 sha256 : Text → Text) where
  unfoldable pub fingerprint_of : Hello → Fingerprint
  fingerprint_of ch =
      let (ja3_str, ja3_hash) = ja3_of md5 ch in
      record {
        ja4 = ja4_of sha256 (ja4_fields ch);
        ja3 = ja3_str;
        ja3_hash = ja3_hash;
        raw_ciphers = ch.raw_ciphers;
        raw_extensions = ch.raw_extensions;
        extension_bodies = ch.extension_bodies;
        compression = ch.compression;
        client_version = ch.client_version;
        ciphers = ch.ciphers;
        extensions_ordered = ch.extensions;
        curves = ch.curves;
        sig_algs = ch.sig_algs;
        alpn = ch.alpn;
        supported_versions = ch.supported_versions;
        psk_modes = ch.psk_modes;
        cert_compression = ch.cert_compression;
        record_size_limit = ch.record_size_limit;
        app_settings = ch.app_settings;
        point_formats = ch.point_formats;
        ech = ch.ech;
        has_grease = ch.has_grease;
        session_id_len = ch.session_id_len;
      }

  unfoldable pub fingerprint : List ℕ → Bool → Result Fingerprint
  unfolding fingerprint_of
  fingerprint rec drop = do
    ch ← parse_client_hello rec
    ok (fingerprint_of (if drop then drop_sni ch else ch))
