-- ===== src/Tests/Mapping.antt =====
-- The tables that the mapper makes of one record, and a look-up in them.
use mathlib.Core.List.{Memᴰ}
use browserfp.Prelude.{◌≡◌, refl, [], ◌∷◌, List, none, some, true, false, ok}
use browserfp.Text.{Text, text}
use browserfp.Pattern.{
  literal, search_for, contains, digits, number, skip_while, skip_some, without_suffix,
  before_colon, after_colon,
}
use browserfp.Match.Norm.{Norm}
use browserfp.Keyed.{get_at, modify}
use browserfp.UaMap.UserAgent.{chromium_engine}
use browserfp.UaMap.Table.{Mapper, of_brand, span_of}
use browserfp.UaMap.Lookup.{
  exact, own_row, Reply, mobile_step, engine_step, last_step, then_last, then_engine, lookup_brand,
}
use browserfp.UaMap.Alias.{
  is_mobile, without_words, digits_upto, few_digits, mobile_alias, desktop_alias, read_alias,
  before_dash, major_of_text, has_prefix,
}
use browserfp.UaMap.Build.{
  Listed, SegmentFile, put_row, short_names_of, add_aliases, brands_of, add_version, add_covers,
  add_edge, on_mobile_too, add_capture, add_captures, is_used, row_of, add_record, add_records,
  load_segments, load_desktop_equivalent, mapper_of,
}
use browserfp.UaMap.Mapped.{lookup_brand-mapper_of}
use browserfp.Tests.Samples.{sample_profile}

-- Edge is Chrome in the aliases, and Chrome 121 is covered too.
abbrev chrome_120 : Listed
chrome_120 = record {
  entry = record {
    id = text "curl:chrome120";
    aliases = text "wreq:Edge120" ∷ [];
    tls = sample_profile;
    mode = some (text "initial");
    provenance = none;
    h2 = none;
    h3 = none;
    default_config = true;
  };
  versions = [];
  covers_versions = [];
}

abbrev any_text : Norm → Text
any_text n = []

abbrev one_mapper : Mapper
one_mapper = record {
  by_brand =
      (text "chrome", (120, row_of any_text chrome_120.entry) ∷ [])
      ∷ (text "edge", (120, row_of any_text chrome_120.entry) ∷ [])
      ∷ [];
  segments = (text "chrome", (119, 121) ∷ []) ∷ [];
  desktop_equiv = [];
}

abbrev segment_files : List SegmentFile
segment_files =
    (
      text "chrome",
      record { span = (119, 121); substitutable = true; same_as_desktop = false } ∷ [],
    )
    ∷ []

mapper_run : mapper_of any_text (chrome_120 ∷ []) segment_files ≡ ok one_mapper
unfolding mapper_of add_records add_record add_captures add_capture on_mobile_too add_edge
    add_covers add_version brands_of add_aliases short_names_of put_row load_segments
    load_desktop_equivalent has_prefix major_of_text before_dash read_alias desktop_alias
    mobile_alias few_digits digits_upto without_words is_mobile get_at modify literal search_for
    contains digits number skip_while skip_some without_suffix before_colon after_colon
mapper_run = refl

abbrev edge_reply : Reply
edge_reply = record {
  profile = some (text "curl:chrome120");
  confidence = exact;
  brand = some (text "edge");
  version = some 120;
  nearest = none;
  note = own_row;
}

edge_run : lookup_brand one_mapper true (text "edge") 120 ≡ ok edge_reply
unfolding lookup_brand chromium_engine without_suffix mobile_step then_engine engine_step then_last
    last_step of_brand span_of
edge_run = refl

lookup_brand-mapper_of_example :
    (l : Listed) × Memᴰ l (chrome_120 ∷ [])
    × (is_used l.entry ≡ true)
    × (edge_reply.profile ≡ some l.entry.id)
lookup_brand-mapper_of_example =
    lookup_brand-mapper_of any_text (chrome_120 ∷ []) segment_files one_mapper true (text "edge")
      120 edge_reply mapper_run edge_run refl
