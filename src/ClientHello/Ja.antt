-- ===== src/ClientHello/Ja.antt =====
-- `ja3` and `ja4` of oracle/clienthello.py. The hexadecimal digests of MD5 and SHA-256
-- are parameters: hashlib computes them.
use browserfp.Prelude.{
  ℕ, Bool, true, false, not, List, [], ◌∷◌, ◌++◌, map, length, take, filter, elem, min, max, Option,
  some, none, ◌==◌, if◌then◌else◌,
}
use browserfp.Prelude.Sort.{sort}
use browserfp.Text.{Text, text, hex04, dec02, str, join}
use browserfp.ClientHello.Grease.{drop_grease}
use browserfp.ClientHello.Parse.{Hello}

-- The entries of the dictionary that `ja4` reads.
pub record Ja4Fields : Type 0 where
  pub sni : Option Text
  pub ciphers : List ℕ
  pub extensions : List ℕ
  pub sig_algs : List ℕ
  pub alpn : List Text
  pub supported_versions : List ℕ
  pub client_version : ℕ

unfoldable pub ja4_fields : Hello → Ja4Fields
ja4_fields ch = record {
  sni = ch.sni;
  ciphers = ch.ciphers;
  extensions = ch.extensions;
  sig_algs = ch.sig_algs;
  alpn = ch.alpn;
  supported_versions = ch.supported_versions;
  client_version = ch.client_version;
}

-- `max(xs or [d])`
abbrev pub max_or : ℕ → List ℕ → ℕ
max_or d [] = d
max_or d (x ∷ []) = x
max_or d (x ∷ y ∷ ys) = max x (max_or d (y ∷ ys))

unfoldable pub version_code : ℕ → Text
version_code v =
    if v == 0x0304
    then text "13"
    else if v == 0x0303
    then text "12"
    else if v == 0x0302
    then text "11"
    else if v == 0x0301
    then text "10"
    else text "00"

-- An SNI that is `None` or empty is false.
unfoldable pub sni_flag : Option Text → Text
sni_flag none = text "i"
sni_flag (some []) = text "i"
sni_flag (some (c ∷ cs)) = text "d"

abbrev last_of : ℕ → Text → ℕ
last_of c [] = c
last_of c (d ∷ ds) = last_of d ds

-- The first and the last character of the first name, or `00`.
unfoldable pub alpn_code : List Text → Text
alpn_code [] = text "00"
alpn_code ([] ∷ ns) = text "00"
alpn_code ((c ∷ cs) ∷ ns) = c ∷ last_of c cs ∷ []

abbrev pub hex_list : List ℕ → Text
hex_list vs = join (text ",") (map hex04 vs)

unfoldable pub ja4_a : Ja4Fields → Text
unfolding version_code sni_flag alpn_code
ja4_a ch =
    text "t"
    ++ (version_code (max_or ch.client_version ch.supported_versions)
        ++ (sni_flag ch.sni
            ++ (dec02 (min (length ch.ciphers) 99)
                ++ (dec02 (min (length ch.extensions) 99) ++ alpn_code ch.alpn))))

-- `if s` on a text
abbrev pub is_text : Text → Bool
is_text [] = false
is_text (c ∷ cs) = true

-- `server_name` and ALPN are counted and not hashed.
abbrev pub is_hashed : ℕ → Bool
is_hashed e = not (elem e (0x0000 ∷ 0x0010 ∷ []))

module _ (sha256 : Text → Text) where
  -- The first twelve digits of the digest, or twelve zeros where `test` is empty.
  abbrev pub digest12 : Text → Text → Text
  digest12 test input = if is_text test then take 12 (sha256 input) else text "000000000000"

  unfoldable pub ja4_b : Ja4Fields → Text
  ja4_b ch = let cipher_str = hex_list (sort ch.ciphers) in digest12 cipher_str cipher_str

  -- GREASE is left out of the signature algorithms.
  unfoldable pub ja4_c : Ja4Fields → Text
  ja4_c ch =
      let ext_str = hex_list (sort (filter is_hashed ch.extensions)) in
      let sig_str = hex_list (drop_grease ch.sig_algs) in
      digest12 ext_str (if is_text sig_str then ext_str ++ (text "_" ++ sig_str) else ext_str)

  unfoldable pub ja4 : Ja4Fields → Text
  ja4 ch = ja4_a ch ++ (text "_" ++ (ja4_b ch ++ (text "_" ++ ja4_c ch)))

abbrev dashed : List ℕ → Text
dashed vs = join (text "-") (map str vs)

-- The JA3 text and its digest.
unfoldable pub ja3 : (Text → Text) → Hello → Text × Text
ja3 md5 ch =
    let s =
      str ch.client_version
      ++ (text ","
          ++ (dashed ch.ciphers
              ++ (text ","
                  ++ (dashed ch.extensions
                      ++ (text ","
                          ++ (dashed ch.curves ++ (text "," ++ dashed ch.point_formats))))))) in
    (s, md5 s)
