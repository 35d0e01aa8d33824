-- ===== src/Tests/Samples.antt =====
-- Data of the tests: a source of randomness that draws zeros, digests of zeros, a small profile with
-- GREASE, and the arguments of a build.
use browserfp.Prelude.{
  ℕ, zero, suc, List, [], ◌∷◌, length-replicate, All, replicate, none, some, true, false, Result,
  ok, arith,
}
use browserfp.Bytes.{IsByte}
use browserfp.Text.{Text, text}
use browserfp.ClientHello.Fingerprint.{Fingerprint}
use browserfp.Builder.Draw.{Secrets}
use browserfp.Builder.Regrease.{Grease}
use browserfp.Builder.Build.{Options}

pub zeros-IsByte : (n : ℕ) → All IsByte (replicate n 0)
zeros-IsByte zero = tt
zeros-IsByte (suc n) = (omega arith, zeros-IsByte n)

abbrev pub zero_rng : Secrets
zero_rng = record {
  token_bytes = λ i n. replicate n 0;
  randbelow = λ i n. 0;
  length-token_bytes = λ i n. length-replicate n 0;
  token_bytes-IsByte = λ i n. zeros-IsByte n;
  randbelow-lt = λ i n h. h;
}

-- In place of SHA-256, as bytes and as hexadecimal digits.
abbrev pub zero_digest : List ℕ → List ℕ
zero_digest bs = replicate 32 0

abbrev pub zero_hex : Text → Text
zero_hex bs = replicate 64 48

-- GREASE, the server's name, groups, and ALPN with the protocol h2.
abbrev pub sample_profile : Fingerprint
sample_profile = record {
  ja4 = [];
  ja3 = [];
  ja3_hash = [];
  raw_ciphers = 0x4a4a ∷ 0x1301 ∷ 0x1302 ∷ [];
  raw_extensions = 0x2a2a ∷ 0x0000 ∷ 0x000a ∷ 0x0010 ∷ [];
  extension_bodies = (0x000a, text "00024a4a") ∷ (0x0010, text "0003026832") ∷ [];
  compression = 0 ∷ [];
  client_version = 0x0303;
  ciphers = 0x1301 ∷ 0x1302 ∷ [];
  extensions_ordered = 0x0000 ∷ 0x000a ∷ 0x0010 ∷ [];
  curves = [];
  sig_algs = [];
  alpn = text "h2" ∷ [];
  supported_versions = [];
  psk_modes = [];
  cert_compression = [];
  record_size_limit = none;
  app_settings = [];
  point_formats = [];
  ech = false;
  has_grease = true;
  session_id_len = 32;
}

abbrev pub sample_args : Options
sample_args = record {
  sni = some (text "a.io");
  key_shares = [];
  verbatim = false;
  hrr_group = none;
  grease = none;
  random32 = none;
  session_id = none;
  ech_body = none;
  record_version = 0x0301;
  permute = true;
}

abbrev pub sample_grease : Grease
sample_grease = record {
  cipher = 0x0a0a;
  ext = 0x0a0a ∷ 0x1a1a ∷ [];
  group = 0x2a2a;
  version = 0x3a3a;
}

-- What a run returns; nothing stands for no result.
abbrev pub value_of : Result (List ℕ × ℕ) → List ℕ × ℕ
value_of (ok r) = r
value_of _ = ([], 0)
