-- ===== src/Tests/Connection.antt =====
-- A run of the builder.
use browserfp.Prelude.{
  ℕ, ◌<◌, ◌≤◌, ◌≡◌, ◌⊎◌, refl, arith, replicate, ◌++◌, List, [], ◌∷◌, length, some, false, Result,
  ok,
}
use mathlib.Core.List.{Perm}
use browserfp.Text.{hex_value, from_hex}
use browserfp.ClientHello.Grease.{is_grease, drop_grease}
use browserfp.Bytes.{pack16, pack8}
use browserfp.Builder.Vec.{vec, pack16s, pack8s, pack_extension}
use browserfp.Builder.Regrease.{pick_grease, regrease_from, regrease_list, regrease_u16_body}
use browserfp.Builder.Regrease.Laws.{IsFresh, pick_grease-IsFresh}
use browserfp.Builder.Permute.{
  is_pinned, movable_from, swap, place, next, below, shuffle, permute_extensions,
}
use browserfp.Builder.Padding.{strip_from, ext_bytes_wo_padding, hello_len, pad}
use browserfp.Builder.Padding.Bounds.{padded_len, pad_length}
use browserfp.Builder.Assemble.{decode_bodies, insert_sni, sni_body, hello_bytes, record_bytes}
use browserfp.Builder.Build.{
  bytes_or_draw, session_or_draw, grease_or_pick, extension_body, extension_bytes, extension_order,
  build_client_hello,
}
use browserfp.RoundTrip.Build.{Built, parse-build, build_length}
use browserfp.RoundTrip.Stable.{extension_order-perm}
use browserfp.Tests.Samples.{
  zero_rng, zero_digest, sample_profile, sample_args, sample_grease, value_of,
}

abbrev sample_run : Result (List ℕ × ℕ)
sample_run = build_client_hello zero_digest 1 zero_rng sample_profile sample_args 0

abbrev sample_built : List ℕ × ℕ
unfolding build_client_hello decode_bodies from_hex hex_value grease_or_pick pick_grease
    extension_order insert_sni is_grease regrease_list regrease_from permute_extensions movable_from
    is_pinned shuffle below next swap place extension_bytes extension_body regrease_u16_body
    sni_body pack_extension pack16 pack8 vec pad ext_bytes_wo_padding strip_from hello_len
    bytes_or_draw session_or_draw hello_bytes record_bytes pack16s pack8s
sample_built = value_of sample_run

sample_built_eq : sample_run ≡ ok sample_built
unfolding build_client_hello decode_bodies from_hex hex_value grease_or_pick pick_grease
    extension_order insert_sni is_grease regrease_list regrease_from permute_extensions movable_from
    is_pinned shuffle below next swap place extension_bytes extension_body regrease_u16_body
    sni_body pack_extension pack16 pack8 vec pad ext_bytes_wo_padding strip_from hello_len
    bytes_or_draw session_or_draw hello_bytes record_bytes pack16s pack8s
sample_built_eq = refl

parse-build_example : Built zero_digest 1 zero_rng sample_profile sample_args sample_built.0
parse-build_example =
    parse-build zero_digest 1 zero_rng sample_profile sample_args 0 sample_built tt sample_built_eq

build_length_example : (length sample_built.0 < 261) ⊎ (517 ≤ length sample_built.0)
build_length_example =
    build_length zero_digest 1 zero_rng sample_profile sample_args 0 sample_built refl tt tt
      sample_built_eq

abbrev sample_order : List ℕ
sample_order = 0x0a0a ∷ 0x000a ∷ 0x0010 ∷ 0x0000 ∷ []

sample_order_eq :
    extension_order zero_digest 1 sample_args (some sample_grease) sample_profile.raw_extensions
    ≡ ok sample_order
unfolding extension_order insert_sni is_grease regrease_list regrease_from permute_extensions
    movable_from is_pinned shuffle below next swap place
sample_order_eq = refl

sample_grease-IsFresh : IsFresh sample_grease
unfolding is_grease
sample_grease-IsFresh = record {
  first = 0x0a0a;
  second = 0x1a1a;
  two = refl;
  differ = λ e. omega arith;
  first_grease = refl;
  second_grease = refl;
  cipher_grease = refl;
  group_grease = refl;
  version_grease = refl;
}

extension_order-perm_example :
    Perm
      (drop_grease sample_order)
      (drop_grease (insert_sni sample_args.sni sample_profile.raw_extensions))
extension_order-perm_example =
    extension_order-perm zero_digest 1 sample_args (some sample_grease)
      sample_profile.raw_extensions sample_order sample_grease-IsFresh sample_order_eq

pick_grease_eq :
    pick_grease zero_rng false 0
    ≡ ok (
      some (record {
        cipher = 0x0a0a;
        ext = 0x0a0a ∷ 0x1a1a ∷ [];
        group = 0x0a0a;
        version = 0x0a0a;
      }),
      5,
    )
unfolding pick_grease
pick_grease_eq = refl

pick_grease-IsFresh_example :
    IsFresh
      (record { cipher = 0x0a0a; ext = 0x0a0a ∷ 0x1a1a ∷ []; group = 0x0a0a; version = 0x0a0a })
pick_grease-IsFresh_example = pick_grease-IsFresh zero_rng 0 pick_grease_eq

-- An extension of 422 zeros, which makes a message of 509 bytes.
abbrev long_block : List ℕ
long_block = 0 ∷ 23 ∷ 1 ∷ 166 ∷ replicate 422 0

long_pad : pad false sample_profile long_block ≡ ok (long_block ++ 0 ∷ 21 ∷ 0 ∷ 0 ∷ [])
unfolding pad ext_bytes_wo_padding strip_from hello_len pack_extension pack16 vec
long_pad = refl

pad_length_example :
    hello_len sample_profile (long_block ++ 0 ∷ 21 ∷ 0 ∷ 0 ∷ [])
    ≡ padded_len (hello_len sample_profile (ext_bytes_wo_padding long_block))
pad_length_example = pad_length sample_profile long_block _ long_pad
