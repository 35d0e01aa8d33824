-- ===== src/ClientHello/Parse.antt =====
-- `parse_client_hello` of oracle/clienthello.py.
use browserfp.Prelude.{
  ℕ, zero, suc, ◌+◌, ◌/◌, Bool, not, ◌||◌, List, [], ◌∷◌, ◌++◌, map, length, any, put, ◌==◌, ltb,
  if◌then◌else◌, Result, ok, stuck, ◌>>=◌, ◌>>◌, raise_if, record_too_short, not_a_handshake,
  truncated_record, not_a_client_hello,
}
use browserfp.Bytes.{byte_at, u16_at, u24_at, u16s_at, slice}
use browserfp.Text.{Text, hex}
use browserfp.ClientHello.Grease.{is_grease, drop_grease}
use browserfp.ClientHello.Known.{Known, nothing_known, read_extensions}

abbrev pub Extension : Type 0
Extension = ℕ × List ℕ

pub record Hello : Type 0 where
  pub tls_record_version : ℕ
  pub client_version : ℕ
  pub session_id_len : ℕ
  pub random_hex : Text
  pub compression : List ℕ
  pub raw_ciphers : List ℕ
  pub ciphers : List ℕ
  pub raw_extensions : List ℕ
  pub extensions : List ℕ
  pub extension_bodies : List (ℕ × Text)
  pub has_grease : Bool
  pub known : Known
  pub open known use *

-- `{e: b.hex() for e, b in extensions}`: a later body of the same id wins.
unfoldable pub bodies_of : List (ℕ × Text) → List Extension → List (ℕ × Text)
bodies_of d [] = d
bodies_of d ((e, b) ∷ rest) = bodies_of (put e (hex b) d) rest

abbrev pub ids : List Extension → List ℕ
ids = map (λ e. e.0)

-- `while o < end`: a round reads two words, so `length body + 1` rounds are enough.
unfoldable pub extensions_from : ℕ → List ℕ → ℕ → ℕ → List Extension → Result (List Extension)
extensions_from zero body o end out = stuck
extensions_from (suc fuel) body o end out =
    let round = (do
      ext_id ← u16_at body o
      ext_len ← u16_at body (o + 2)
      extensions_from fuel body (o + 4 + ext_len) end
          (out ++ ((ext_id, slice body (o + 4) (o + 4 + ext_len)) ∷ []))) in
    if ltb o end then round else ok out

-- The extension block, which may be missing.
unfoldable pub extension_block : List ℕ → ℕ → Result (List Extension)
unfolding extensions_from
extension_block body o =
    if ltb o (length body)
    then (do
      ext_total ← u16_at body o
      extensions_from (suc (length body)) body (o + 2) (o + 2 + ext_total) [])
    else ok []

-- What the record layer leaves: the record's version and its body.
unfoldable pub record_body : List ℕ → Result (ℕ × List ℕ)
record_body rec = do
  raise_if (ltb (length rec) 5) record_too_short
  kind ← byte_at rec 0
  raise_if (not (kind == 0x16)) not_a_handshake
  rec_ver ← u16_at rec 1
  rec_len ← u16_at rec 3
  let body = slice rec 5 (5 + rec_len)
  raise_if (ltb (length body) rec_len) truncated_record
  ok (rec_ver, body)

-- The dictionary that is returned, without the known extensions.
unfoldable pub hello_of : ℕ → ℕ → ℕ → List ℕ → List ℕ → List ℕ → List Extension → Known → Hello
unfolding bodies_of
hello_of rec_ver client_ver sid_len random_bytes compression raw_ciphers extensions known = record {
  tls_record_version = rec_ver;
  client_version = client_ver;
  session_id_len = sid_len;
  random_hex = hex random_bytes;
  compression = compression;
  raw_ciphers = raw_ciphers;
  ciphers = drop_grease raw_ciphers;
  raw_extensions = ids extensions;
  extensions = drop_grease (ids extensions);
  extension_bodies = bodies_of [] extensions;
  has_grease = any is_grease raw_ciphers || any is_grease (ids extensions);
  known = known;
}

-- The body of a handshake record. `hs_len` is read and not used.
unfoldable pub parse_body : ℕ → List ℕ → Result Hello
unfolding extension_block hello_of
parse_body rec_ver body = do
  hs_type ← byte_at body 0
  raise_if (not (hs_type == 0x01)) not_a_client_hello
  hs_len ← u24_at body 1
  client_ver ← u16_at body 4
  let random_bytes = slice body 6 38
  sid_len ← byte_at body 38
  let o = 39 + sid_len
  cs_len ← u16_at body o
  raw_ciphers ← u16s_at body (o + 2) (cs_len / 2)
  let p = o + 2 + cs_len
  comp_len ← byte_at body p
  let compression = slice body (p + 1) (p + 1 + comp_len)
  extensions ← extension_block body (p + 1 + comp_len)
  known ← read_extensions nothing_known extensions
  ok (hello_of rec_ver client_ver sid_len random_bytes compression raw_ciphers extensions known)

unfoldable pub parse_client_hello : List ℕ → Result Hello
parse_client_hello rec = do (rec_ver, body) ← record_body rec; parse_body rec_ver body
