-- ===== src/Tests/Sources.antt =====
-- Two sources merged, a segment with captures of two sources, and the rule of the one anchor.
use mathlib.Core.List.{Memᴰ}
use mathlib.Core.Logic.{◌≢◌}
use browserfp.Prelude.{
  ℕ, ◌≡◌, ◌≤◌, ◌<◌, ◌*◌, length, arith, ap, refl, true, false, List, [], ◌∷◌, none, some, Result,
  ok, All, if◌then◌else◌,
}
use browserfp.Text.{Text, text}
use browserfp.ClientHello.Fingerprint.{Fingerprint}
use browserfp.Match.Norm.{Norm, same_list}
use browserfp.Match.Matcher.{Entry}
use browserfp.Keyed.{get_at, modify, Every, IsDistinct, total}
use browserfp.Registry.Merge.{H3, Golden, Source, Record, real_capture, key_of, build}
use browserfp.Registry.Filed.{IsFiled, names_in, build-IsFiled, build-total}
use browserfp.Registry.Found.{build-alias, build-real}
use browserfp.Segments.Runs.{Segment}
use browserfp.Segments.Substitute.{
  Keys, class_of, strong_ok, captures, captures_from, collect_evidence, judge, verdict,
  segment_substitutable,
}
use browserfp.Segments.Evidence.{segment_substitutable_uniform}
use browserfp.Segments.Captured.{IsNodup}
use browserfp.Segments.Coherent.{segment_substitutable-HasMajority}
use browserfp.Derive.Rule.{Tables}
use browserfp.Tests.Samples.{sample_profile}

-- One fingerprint that a library knows by one name and a capture by another.
abbrev sample_golden : Golden Text
sample_golden = record { fingerprint = sample_profile; version = none; flagged = false; h2 = none }

abbrev library_source : Source Text
library_source = record {
  source = text "utls";
  provenance = text "opensource-table";
  mode = text "initial";
  tls_data = (text "Chrome", sample_golden) ∷ [];
  h2_data = [];
}

abbrev capture_source : Source Text
capture_source = record {
  source = text "real";
  provenance = real_capture;
  mode = text "initial";
  tls_data = (text "chrome", sample_golden) ∷ [];
  h2_data = [];
}

abbrev two_sources : List (Source Text)
two_sources = capture_source ∷ library_source ∷ []

abbrev ciphers_text : Norm → Text
ciphers_text n = n.ciphers

abbrev no_h3 : List (Text × H3 Text)
no_h3 = []

abbrev registry : List (Text × Record Text)
registry = build ciphers_text no_h3 two_sources

build-IsFiled_example : Every (IsFiled ciphers_text) registry × IsDistinct registry
build-IsFiled_example = build-IsFiled ciphers_text no_h3 two_sources

build-total_example : total names_in registry ≡ 2
build-total_example = build-total ciphers_text no_h3 two_sources

build-alias_example :
    (r : Record Text) × (get_at (key_of ciphers_text no_h3 library_source sample_golden) registry
      ≡ some r)
    × Memᴰ (text "utls:Chrome") r.aliases
build-alias_example =
    build-alias ciphers_text no_h3 two_sources library_source (text "Chrome") sample_golden
      (Memᴰ.tail (Memᴰ.head refl)) (Memᴰ.head refl)

build-real_example :
    (r : Record Text) × (get_at (key_of ciphers_text no_h3 capture_source sample_golden) registry
      ≡ some r)
    × (r.provenance ≡ real_capture)
build-real_example =
    build-real ciphers_text no_h3 two_sources capture_source (text "chrome") sample_golden
      (Memᴰ.head refl) (Memᴰ.head refl) refl

-- Versions 10 and 11, each source with its own fingerprint.
abbrev sample_segment : Segment
sample_segment = record { from = 10; to = 11; key = text "k" }

abbrev sample_captures : List (ℕ × List (Text × Text))
sample_captures =
    (10, (text "utls", text "a") ∷ (text "wreq", text "b") ∷ [])
    ∷ (11, (text "utls", text "a") ∷ [])
    ∷ []

-- The fingerprint of utls, and that of the others.
abbrev source_key : Text → Text
source_key src = if same_list src (text "utls") then text "a" else text "b"

substitutable_run : (segment_substitutable sample_segment sample_captures).0 ≡ true
unfolding segment_substitutable verdict judge collect_evidence captures_from modify class_of
    strong_ok
substitutable_run = refl

one_each : All (λ c. c.2 ≡ source_key c.1) (captures sample_segment sample_captures)
unfolding captures_from
one_each = (refl, (refl, (refl, tt)))

some_captures : captures sample_segment sample_captures ≢ []
unfolding captures_from
some_captures = λ e. cc

segment_substitutable_uniform_example :
    (segment_substitutable sample_segment sample_captures).0 ≡ true
segment_substitutable_uniform_example =
    segment_substitutable_uniform source_key sample_segment sample_captures one_each some_captures

-- Versions 10 to 13, in the last of which the source shows another fingerprint.
abbrev mixed_segment : Segment
mixed_segment = record { from = 10; to = 13; key = text "k" }

abbrev mixed_captures : List (ℕ × List (Text × Text))
mixed_captures =
    (10, (text "wreq", text "a") ∷ [])
    ∷ (11, (text "wreq", text "a") ∷ [])
    ∷ (12, (text "wreq", text "a") ∷ [])
    ∷ (13, (text "wreq", text "b") ∷ [])
    ∷ []

mixed_run : (segment_substitutable mixed_segment mixed_captures).0 ≡ true
unfolding segment_substitutable verdict judge collect_evidence captures_from modify class_of
    strong_ok
mixed_run = refl

mixed_found :
    Memᴰ (13, text "wreq", text "b") (captures mixed_segment mixed_captures)
    × Memᴰ (10, text "wreq", text "a") (captures mixed_segment mixed_captures)
    × Memᴰ (11, text "wreq", text "a") (captures mixed_segment mixed_captures)
unfolding captures_from
mixed_found =
    (Memᴰ.tail (Memᴰ.tail (Memᴰ.tail (Memᴰ.head refl))), Memᴰ.head refl, Memᴰ.tail (Memᴰ.head refl))

other_text : text "b" ≢ text "a"
other_text h = let q : true ≡ false = ap (λ t. same_list (text "b") t) h in cc

segment_substitutable-HasMajority_example :
    (keys : Keys) × (key : Text) × (vs : List ℕ) × (get_at
        (text "wreq")
        (collect_evidence (captures mixed_segment mixed_captures) [])
      ≡ some keys)
    × Memᴰ (key, vs) keys
    × (3 ≤ length vs)
    × (total (λ ws. length ws) keys < 2 * length vs)
    × All (λ x. Memᴰ (x, text "wreq", key) (captures mixed_segment mixed_captures)) vs
    × IsNodup vs
segment_substitutable-HasMajority_example =
    segment_substitutable-HasMajority mixed_segment mixed_captures (text "wreq") 13 10 11 (text "b")
      (text "a") (text "a") mixed_run mixed_found.0 mixed_found.1 mixed_found.2 (omega arith)
      (omega arith) (omega arith) other_text

-- The records of the anchor: the desktop's has SCT, and the platform leaves it out.
abbrev anchored : Text → Fingerprint → Entry
anchored id tls = record {
  id = id;
  aliases = [];
  tls = tls;
  mode = none;
  provenance = none;
  h2 = none;
  h3 = none;
  default_config = true;
}

abbrev anchor_records : List Entry
anchor_records =
    anchored (text "wreq:Firefox135") (record sample_profile { extensions_ordered = 0 ∷ 0x12 ∷ [] })
    ∷ anchored (text "wreq:FirefoxAndroid135")
        (record sample_profile { extensions_ordered = 0 ∷ [] })
    ∷ []

-- SCT on the desktop only.
abbrev sct_tables : Text → Text → Result Tables
sct_tables version platform =
    ok (record { sct = same_list platform (text "desktop"); ech = false; curves = [] })
