-- ===== src/Tests/Derived.antt =====
-- A derived profile, and the segments of a few versions.
use mathlib.Core.List.{Sublistᴰ}
use browserfp.Prelude.{ℕ, ◌≡◌, refl, none, [], ◌∷◌, map, ◌==◌, if◌then◌else◌, true, false}
use browserfp.Prelude.Sort.{sort, insert}
use browserfp.Text.{Text, text}
use browserfp.ClientHello.Fingerprint.{Fingerprint}
use browserfp.ClientHello.Ja.{ja4}
use browserfp.Derive.Delta.{Delta, dropped, apply_delta}
use browserfp.Derive.Dropped.{IsWithout, apply_delta_lem}
use browserfp.Segments.Runs.{extend, segments_from, segment}
use browserfp.Segments.Lossless.{expand, expand-segment}
use browserfp.Tests.Samples.{zero_hex, sample_profile}

abbrev desktop : Fingerprint
desktop = record sample_profile {
  extensions_ordered = 0x0000 ∷ 0x0012 ∷ 0x0010 ∷ [];
  curves = 0x11ec ∷ 0x001d ∷ [];
}

abbrev android : Delta
android = record { drop_sct = true; drop_mlkem = true; drop_ech = false }

derived_extensions :
    (apply_delta zero_hex desktop android).extensions_ordered ≡ 0x0000 ∷ 0x0010 ∷ []
unfolding apply_delta dropped
derived_extensions = refl

apply_delta_lem_example :
    IsWithout true 0x0012 desktop.extensions_ordered
      (apply_delta zero_hex desktop android).extensions_ordered
    × IsWithout true 0x0012 desktop.raw_extensions
        (apply_delta zero_hex desktop android).raw_extensions
    × IsWithout true 0x0012
        (map (λ (b : ℕ × Text). b.0) desktop.extension_bodies)
        (map (λ (b : ℕ × Text). b.0) (apply_delta zero_hex desktop android).extension_bodies)
    × Sublistᴰ (apply_delta zero_hex desktop android).extension_bodies desktop.extension_bodies
    × IsWithout true 0x11EC desktop.curves (apply_delta zero_hex desktop android).curves
    × ((apply_delta zero_hex desktop android).ja4
        ≡ ja4 zero_hex (record {
          sni = none;
          ciphers = desktop.ciphers;
          extensions = (apply_delta zero_hex desktop android).extensions_ordered;
          sig_algs = desktop.sig_algs;
          alpn = desktop.alpn;
          supported_versions = desktop.supported_versions;
          client_version = desktop.client_version;
        }))
    × (record (apply_delta zero_hex desktop android) {
      extensions_ordered = desktop.extensions_ordered;
      raw_extensions = desktop.raw_extensions;
      extension_bodies = desktop.extension_bodies;
      curves = desktop.curves;
      ja4 = desktop.ja4;
    }
        ≡ desktop)
apply_delta_lem_example = apply_delta_lem zero_hex desktop android 0x0012 0x11EC

-- From version 100 on the fingerprint is another.
abbrev key_of : ℕ → Text
key_of v = if v == 99 then text "old" else text "new"

segments_run :
    segment key_of (101 ∷ 99 ∷ 100 ∷ 103 ∷ [])
    ≡ record { from = 99; to = 99; key = text "old" }
      ∷ record { from = 100; to = 101; key = text "new" }
      ∷ record { from = 103; to = 103; key = text "new" }
      ∷ []
unfolding segment segments_from extend sort insert
segments_run = refl

expand-segment_example :
    expand (segment key_of (101 ∷ 99 ∷ 100 ∷ 103 ∷ []))
    ≡ map (λ v. (v, key_of v)) (sort (101 ∷ 99 ∷ 100 ∷ 103 ∷ []))
expand-segment_example = expand-segment key_of (101 ∷ 99 ∷ 100 ∷ 103 ∷ [])
