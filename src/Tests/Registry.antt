-- ===== src/Tests/Registry.antt =====
-- Runs of the matcher on a registry of one record.
use mathlib.Core.Logic.{◌≢◌}
use browserfp.Prelude.{◌≡◌, ◌≤◌, inl, refl, ap, inr, [], ◌∷◌, none, true, false, ok}
use browserfp.Prelude.Sort.{sort, insert}
use browserfp.Text.{Text, text}
use browserfp.ClientHello.Fingerprint.{Fingerprint}
use browserfp.Match.Norm.{Norm, norm, diff}
use browserfp.Match.Matcher.{
  Entry, Confidence, Answer, get, put_first, index_from, distance, nearest_from, nearest, answer,
  identify,
}
use browserfp.Match.Answers.{IsIn}
use browserfp.Match.Identify.{identify_self, identify-exact, identify-unknown}
use browserfp.Tests.Samples.{sample_profile}

abbrev sample_entry : Entry
sample_entry = record {
  id = text "sample";
  aliases = [];
  tls = sample_profile;
  mode = none;
  provenance = none;
  h2 = none;
  h3 = none;
  default_config = true;
}

abbrev other_profile : Fingerprint
other_profile = record sample_profile { ciphers = 0x1303 ∷ [] }

abbrev ciphers_only : Norm → Text
ciphers_only n = n.ciphers

identify_self_example :
    (r : Entry) × (identify ciphers_only (sample_entry ∷ []) sample_profile
      ≡ ok (Answer.hit r Confidence.exact))
identify_self_example = identify_self ciphers_only (sample_entry ∷ []) sample_entry (inl refl)

exact_run :
    identify ciphers_only (sample_entry ∷ []) sample_profile
    ≡ ok (Answer.hit sample_entry Confidence.exact)
unfolding identify answer index_from get put_first norm
exact_run = refl

only_entry : (e : Entry) → IsIn e (sample_entry ∷ []) → e ≡ sample_entry
only_entry e (inl q) = q
only_entry e (inr i) = absurd i

identify-exact_example :
    IsIn sample_entry (sample_entry ∷ []) × (norm sample_profile false ≡ norm sample_profile false)
identify-exact_example =
    identify-exact ciphers_only (sample_entry ∷ []) sample_profile sample_entry
      (λ e i q. ap (λ (r : Entry). norm r.tls false) (only_entry e i)) exact_run

unknown_run :
    identify ciphers_only (sample_entry ∷ []) other_profile
    ≡ ok (Answer.unknown sample_entry 1 (text "ciphers" ∷ []))
unfolding identify answer index_from get put_first nearest nearest_from norm diff sort insert
unknown_run = refl

identify-unknown_example :
    (norm sample_profile true ≢ norm other_profile true)
    × IsIn sample_entry (sample_entry ∷ [])
    × (distance (norm other_profile true) sample_entry
        ≤ distance (norm other_profile true) sample_entry)
    × (1 ≡ distance (norm other_profile true) sample_entry)
    × (text "ciphers" ∷ [] ≡ diff (norm other_profile true) (norm sample_profile true))
identify-unknown_example =
    identify-unknown ciphers_only (sample_entry ∷ []) other_profile sample_entry sample_entry 1
      (text "ciphers" ∷ []) unknown_run (inl refl)
