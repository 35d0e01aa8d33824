-- ===== src/Tests/Agents.antt =====
-- Look-ups of a User-Agent in tables of two records.
use mathlib.Core.Logic.{◌≢◌}
use browserfp.Prelude.{◌≡◌, ◌≤◌, ℕ, refl, [], ◌∷◌, none, some, true, false, ok}
use browserfp.Text.{Text, text, join}
use browserfp.Pattern.{
  literal, search_for, contains, digits, number, without_suffix, remove_from, before_colon,
  after_colon,
}
use browserfp.Match.Matcher.{Entry}
use browserfp.UaMap.UserAgent.{
  numbered, edge_at, safari_at, ios_third_party, chromium_engine, by_rules, parse_ua,
}
use browserfp.UaMap.Table.{Mapper, of_brand, span_of, lower_row, upper_row}
use browserfp.UaMap.Lookup.{
  exact, fallback, own_row, nearest_only, Reply, short_names, far, between, mobile_step,
  engine_step, last_step, then_last, then_engine, lookup_brand, lookup_ua,
}
use browserfp.UaMap.Strict.{Withdraws, lookup_ua-withdraw, lookup_ua-strict}
use browserfp.UaMap.Exact.{IsSampled, lookup_brand-exact}
use browserfp.UaMap.Bounds.{parse_ua-bound}
use browserfp.Tests.Samples.{sample_profile}

abbrev record_of : Text → Entry
record_of id = record {
  id = id;
  aliases = text "curl:Chrome120" ∷ [];
  tls = sample_profile;
  mode = none;
  provenance = none;
  h2 = none;
  h3 = none;
  default_config = true;
}

abbrev own_reply : ℕ → Text → Reply
own_reply ver id = record {
  profile = some id;
  confidence = exact;
  brand = some (text "chrome");
  version = some ver;
  nearest = none;
  note = own_row;
}

-- Chrome 120 and 124 have been seen, with two fingerprints.
abbrev two_records : Mapper
two_records = record {
  by_brand =
      (
        text "chrome",
        (120, (record_of (text "curl:old"), text "a"))
            ∷ (124, (record_of (text "curl:new"), text "b"))
            ∷ [],
      )
      ∷ [];
  segments = [];
  desktop_equiv = [];
}

abbrev chrome_124 : Text
chrome_124 = text "Mozilla/5.0 (X11) Chrome/124.0 Safari/537.36"

abbrev chrome_122 : Text
chrome_122 = text "Mozilla/5.0 (X11) Chrome/122.0 Safari/537.36"

parsed : parse_ua chrome_124 ≡ some (text "chrome", 124)
unfolding parse_ua by_rules ios_third_party search_for literal numbered number digits edge_at
    safari_at contains chromium_engine without_suffix
parsed = refl

-- Between the two, only a lookup that is not strict names a profile.
crossing :
    lookup_ua two_records chrome_122 false
    ≡ ok (record {
      profile = some (text "curl:new");
      confidence = fallback;
      brand = some (text "chrome");
      version = some 122;
      nearest = some (text "curl:new");
      note = nearest_only 124;
    })
unfolding lookup_ua parse_ua by_rules ios_third_party search_for literal numbered number digits
    edge_at safari_at contains chromium_engine without_suffix lookup_brand then_engine then_last
    mobile_step engine_step last_step between far short_names after_colon remove_from before_colon
    lower_row upper_row span_of of_brand join
crossing = refl

lookup_ua-withdraw_example :
    Withdraws (lookup_ua two_records chrome_122 true) (lookup_ua two_records chrome_122 false)
lookup_ua-withdraw_example = lookup_ua-withdraw two_records chrome_122

exact_run : lookup_brand two_records true (text "chrome") 124 ≡ ok (own_reply 124 (text "curl:new"))
unfolding chromium_engine without_suffix lookup_brand then_engine then_last mobile_step engine_step
    last_step between far short_names after_colon remove_from contains before_colon lower_row
    upper_row span_of of_brand
exact_run = refl

strict_run : lookup_ua two_records chrome_124 true ≡ ok (own_reply 124 (text "curl:new"))
unfolding lookup_ua parse_ua by_rules ios_third_party search_for literal numbered number digits
    edge_at safari_at contains chromium_engine without_suffix lookup_brand then_engine then_last
    mobile_step engine_step last_step between far short_names after_colon remove_from before_colon
    lower_row upper_row span_of of_brand
strict_run = refl

lookup_ua-strict_example : exact ≢ fallback
lookup_ua-strict_example =
    lookup_ua-strict two_records chrome_124 (own_reply 124 (text "curl:new")) (text "curl:new")
      strict_run refl

lookup_brand-exact_example :
    IsSampled two_records (text "chrome") 124 (own_reply 124 (text "curl:new"))
lookup_brand-exact_example =
    lookup_brand-exact two_records true (text "chrome") 124 (own_reply 124 (text "curl:new"))
      exact_run refl

not_ios : ios_third_party false chrome_124 ≡ false
unfolding ios_third_party literal
not_ios = refl

not_derived : chromium_engine (text "chrome") ≡ none
unfolding chromium_engine without_suffix
not_derived = refl

parse_ua-bound_example : 124 ≤ 65535
parse_ua-bound_example = parse_ua-bound chrome_124 (text "chrome") 124 not_ios parsed not_derived
