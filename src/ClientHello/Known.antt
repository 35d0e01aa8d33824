-- ===== src/ClientHello/Known.antt =====
-- `_parse_known_extensions` of oracle/clienthello.py.
use browserfp.Prelude.{
  ℕ, zero, suc, ◌+◌, ◌/◌, Bool, true, false, ◌&&◌, List, [], ◌∷◌, ◌++◌, length, Option, some, none,
  ◌==◌, leb, ltb, if◌then◌else◌, Result, ok, stuck, ◌>>=◌,
}
use browserfp.Bytes.{byte_at, u16_at, u16s_at, slice, decode_ascii}
use browserfp.Text.{Text}
use browserfp.ClientHello.Grease.{drop_grease}

pub record Known : Type 0 where
  pub sni : Option Text
  pub curves : List ℕ
  pub sig_algs : List ℕ
  pub alpn : List Text
  pub supported_versions : List ℕ
  pub point_formats : List ℕ
  pub psk_modes : List ℕ
  pub cert_compression : List ℕ
  pub record_size_limit : Option ℕ
  pub app_settings : List Text
  pub ech : Bool

abbrev pub nothing_known : Known
nothing_known = record {
  sni = none;
  curves = [];
  sig_algs = [];
  alpn = [];
  supported_versions = [];
  point_formats = [];
  psk_modes = [];
  cert_compression = [];
  record_size_limit = none;
  app_settings = [];
  ech = false;
}

-- The loop that ALPN and ALPS share: names with a length byte, from `o` up to `end`. A round reads
-- `body[o]` and goes on behind it, so `length body + 1` rounds are enough.
unfoldable pub names_from : ℕ → List ℕ → ℕ → ℕ → List Text → Result (List Text)
names_from zero body o end out = stuck
names_from (suc fuel) body o end out =
    let round = (do
      ln ← byte_at body o
      names_from fuel body (o + (1 + ln)) end
          (out ++ (decode_ascii (slice body (o + 1) (o + 1 + ln)) ∷ []))) in
    if ltb o end then round else ok out

-- The names found so far are in `out`: the source appends to the list that is already there.
unfoldable pub names : List ℕ → List Text → Result (List Text)
unfolding names_from
names body out = do n ← u16_at body 0; names_from (suc (length body)) body 2 (2 + n) out

-- One turn of the loop over the extensions.
unfoldable pub read_extension : Known → ℕ → List ℕ → Result Known
unfolding names
read_extension res ext_id body =
    if ext_id == 0x0000 && leb 5 (length body)
    then (do
      name_len ← u16_at body 3
      ok (record res { sni = some (decode_ascii (slice body 5 (5 + name_len))) }))
    else if ext_id == 0x000a && leb 2 (length body)
    then (do
      n ← u16_at body 0
      vs ← u16s_at body 2 (n / 2)
      ok (record res { curves = drop_grease vs }))
    else if ext_id == 0x000b && leb 1 (length body)
    then (do n ← byte_at body 0; ok (record res { point_formats = slice body 1 (1 + n) }))
    else if ext_id == 0x000d && leb 2 (length body)
    then (do n ← u16_at body 0; vs ← u16s_at body 2 (n / 2); ok (record res { sig_algs = vs }))
    else if ext_id == 0x0010 && leb 2 (length body)
    then (do ns ← names body res.alpn; ok (record res { alpn = ns }))
    else if ext_id == 0x002b && leb 1 (length body)
    then (do
      n ← byte_at body 0
      vs ← u16s_at body 1 (n / 2)
      ok (record res { supported_versions = drop_grease vs }))
    else if ext_id == 0x002d && leb 1 (length body)
    then (do n ← byte_at body 0; ok (record res { psk_modes = slice body 1 (1 + n) }))
    else if ext_id == 0x001b && leb 1 (length body)
    then (do
      n ← byte_at body 0
      vs ← u16s_at body 1 (n / 2)
      ok (record res { cert_compression = vs }))
    else if ext_id == 0x001c && leb 2 (length body)
    then (do n ← u16_at body 0; ok (record res { record_size_limit = some n }))
    else if ext_id == 0x4469 && leb 2 (length body)
    then (do ns ← names body res.app_settings; ok (record res { app_settings = ns }))
    else if ext_id == 0xfe0d
    then ok (record res { ech = true })
    else ok res

unfoldable pub read_extensions : Known → List (ℕ × List ℕ) → Result Known
unfolding read_extension
read_extensions res [] = ok res
read_extensions res ((ext_id, body) ∷ rest) = do
  res' ← read_extension res ext_id body
  read_extensions res' rest
