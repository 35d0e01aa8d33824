-- ===== src/Match/Norm.antt =====
-- `_norm` and `_diff` of oracle/match.py, with `FIELDS` and `SET_FIELDS` of oracle/coverage.py.
use browserfp.Prelude.{
  ℕ, Bool, true, false, not, ◌&&◌, List, [], ◌∷◌, filter, ◌==◌, Option, some, none,
}
use browserfp.Prelude.Sort.{sort}
use browserfp.Text.{Text, text}
use browserfp.ClientHello.Fingerprint.{Fingerprint}

-- The values under `FIELDS`.
pub record Norm : Type 0 where
  pub ciphers : List ℕ
  pub extensions_ordered : List ℕ
  pub curves : List ℕ
  pub sig_algs : List ℕ
  pub alpn : List Text
  pub supported_versions : List ℕ
  pub psk_modes : List ℕ
  pub cert_compression : List ℕ
  pub record_size_limit : Option ℕ
  pub app_settings : List Text
  pub point_formats : List ℕ
  pub ech : Bool
  pub client_version : ℕ

abbrev pub padding_ext : ℕ
padding_ext = 0x0015

-- The one field of `SET_FIELDS` is sorted, and padding may be left out of it.
unfoldable pub norm : Fingerprint → Bool → Norm
norm fp ignore_padding = record {
  ciphers = fp.ciphers;
  extensions_ordered =
      sort (filter (λ x. not (ignore_padding && x == padding_ext)) fp.extensions_ordered);
  curves = fp.curves;
  sig_algs = fp.sig_algs;
  alpn = fp.alpn;
  supported_versions = fp.supported_versions;
  psk_modes = fp.psk_modes;
  cert_compression = fp.cert_compression;
  record_size_limit = fp.record_size_limit;
  app_settings = fp.app_settings;
  point_formats = fp.point_formats;
  ech = fp.ech;
  client_version = fp.client_version;
}

-- Python's `==` on the values.
abbrev pub same_list : List ℕ → List ℕ → Bool
same_list [] [] = true
same_list (x ∷ xs) (y ∷ ys) = x == y && same_list xs ys
same_list _ _ = false

abbrev pub same_texts : List Text → List Text → Bool
same_texts [] [] = true
same_texts (x ∷ xs) (y ∷ ys) = same_list x y && same_texts xs ys
same_texts _ _ = false

abbrev pub same_option : Option ℕ → Option ℕ → Bool
same_option none none = true
same_option (some x) (some y) = x == y
same_option _ _ = false

abbrev pub same_bool : Bool → Bool → Bool
same_bool true b = b
same_bool false b = not b

abbrev pub unless : Bool → Text → List Text → List Text
unless true field rest = rest
unless false field rest = field ∷ rest

-- The names of the fields that differ, in the order of `FIELDS`.
unfoldable pub diff : Norm → Norm → List Text
diff a b =
    let after_limit = unless (same_texts a.app_settings b.app_settings) (text "app_settings") (
      unless (same_list a.point_formats b.point_formats) (text "point_formats") (
        unless (same_bool a.ech b.ech) (text "ech")
          (unless (a.client_version == b.client_version) (text "client_version") []))) in
    let after_alpn =
      unless (same_list a.supported_versions b.supported_versions) (text "supported_versions") (
        unless (same_list a.psk_modes b.psk_modes) (text "psk_modes") (
          unless (same_list a.cert_compression b.cert_compression) (text "cert_compression") (
            unless (same_option a.record_size_limit b.record_size_limit) (text "record_size_limit")
              after_limit))) in
    unless (same_list a.ciphers b.ciphers) (text "ciphers") (
      unless (same_list a.extensions_ordered b.extensions_ordered) (text "extensions_ordered") (
        unless (same_list a.curves b.curves) (text "curves") (
          unless (same_list a.sig_algs b.sig_algs) (text "sig_algs")
            (unless (same_texts a.alpn b.alpn) (text "alpn") after_alpn))))
