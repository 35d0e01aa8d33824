-- ===== src/Registry/Merge.antt =====
-- `build` of oracle/registry.py. The files are parameters, and so is `json.dumps`. `J` is the type of the
-- JSON values that are only copied.
use browserfp.Prelude.{
  Bool, false, not, ◌&&◌, ◌||◌, List, [], ◌∷◌, ◌++◌, Option, none, some, maybe, if◌then◌else◌,
}
use browserfp.Text.{Text, text}
use browserfp.Pattern.{is_some, or_else}
use browserfp.ClientHello.Fingerprint.{Fingerprint}
use browserfp.Match.Norm.{Norm, norm, same_list}
use browserfp.Keyed.{get_at, modify}

pub record H2 {ℓ} (J : Type ℓ) : Type ℓ where
  pub akamai_fingerprint : Option J
  pub settings : Option J
  pub window_update : Option J
  pub priorities : Option J
  pub pseudo_header_order : Option J

pub record H3 {ℓ} (J : Type ℓ) : Type ℓ where
  pub h3_text : Option J
  pub settings : Option J
  pub pseudo_header_order : Option J
  pub has_grease_setting : Option J

-- An entry of a golden file; `flagged` says that it has flags, and `version` and `h2` are none where the
-- entry has none. HTTP/2 is a dictionary.
pub record Golden {ℓ} (J : Type ℓ) : Type ℓ where
  pub fingerprint : Fingerprint
  pub version : Option Text
  pub flagged : Bool
  pub h2 : Option (List (Text × J))

-- A row of `SOURCES` with what its two files hold.
pub record Source {ℓ} (J : Type ℓ) : Type ℓ where
  pub source : Text
  pub provenance : Text
  pub mode : Text
  pub tls_data : List (Text × Golden J)
  pub h2_data : List (Text × List (Text × J))

-- A record of the registry.
pub record Record {ℓ} (J : Type ℓ) : Type ℓ where
  pub id : Text
  pub aliases : List Text
  pub provenance : Text
  pub mode : Text
  pub default_config : Bool
  pub tls : Fingerprint
  pub h2 : Option (H2 J)
  pub h3 : Option (H3 J)
  pub versions : List Text
  pub h2_real : Bool

abbrev pub real_capture : Text
real_capture = text "real-capture"

-- `f"{source}:{name}"`
abbrev pub full_name : Text → Text → Text
full_name source name = source ++ (text ":" ++ name)

-- In a record of QUIC the first letter of the JA4 is q.
unfoldable pub quic_ja4 : Text → Text
quic_ja4 [] = []
quic_ja4 (c ∷ ja4) = if same_list (c ∷ []) (text "t") then text "q" ++ ja4 else c ∷ ja4

unfoldable pub of_mode : Text → Fingerprint → Fingerprint
unfolding quic_ja4
of_mode mode fp = if same_list mode (text "quic") then record fp { ja4 = quic_ja4 fp.ja4 } else fp

module _ {ℓ} {J : Type ℓ} where
  -- The record that a new fingerprint begins with.
  abbrev pub new_record : Source J → Text → Golden J → Record J
  new_record src name g = record {
    id = full_name src.source name;
    aliases = [];
    provenance = src.provenance;
    mode = src.mode;
    default_config = not g.flagged;
    tls = of_mode src.mode g.fingerprint;
    h2 = none;
    h3 = none;
    versions = [];
    h2_real = false;
  }

  abbrev pub add_alias : Text → Option Text → Record J → Record J
  add_alias name version rec = record rec {
    aliases = rec.aliases ++ (name ∷ []);
    versions = maybe version (λ v. rec.versions ++ (v ∷ [])) rec.versions;
  }

  -- A capture of a real browser gives the record its name.
  abbrev pub take_name : Source J → Text → Record J → Record J
  take_name src name rec =
      if same_list src.provenance real_capture
      then record rec { id = name; provenance = src.provenance }
      else rec

  abbrev pub take_h3 : Source J → Option (H3 J) → Record J → Record J
  take_h3 src h3 rec =
      if same_list src.mode (text "quic") && not (is_some rec.h3)
      then record rec { h3 = h3 }
      else rec

  -- The five keys that are copied.
  abbrev pub copy_h2 : List (Text × J) → H2 J
  copy_h2 h = record {
    akamai_fingerprint = get_at (text "akamai_fingerprint") h;
    settings = get_at (text "settings") h;
    window_update = get_at (text "window_update") h;
    priorities = get_at (text "priorities") h;
    pseudo_header_order = get_at (text "pseudo_header_order") h;
  }

  -- HTTP/2 of a real browser goes before what came first; an empty dictionary counts as none.
  abbrev pub take_h2 : Bool → Option (List (Text × J)) → Record J → Record J
  take_h2 is_real none rec = rec
  take_h2 is_real (some []) rec = rec
  take_h2 is_real (some (entry ∷ h)) rec =
      if not (is_some rec.h2) || is_real && not rec.h2_real
      then record rec { h2 = some (copy_h2 (entry ∷ h)); h2_real = is_real }
      else rec

  abbrev pub is_real_source : Source J → Bool
  is_real_source src = same_list src.source (text "real") || same_list src.source (text "linux")

  -- One entry, for the record under its key or for a new one.
  unfoldable pub merged :
      List (Text × H3 J) → Source J → Text → Golden J → Option (Record J) → Record J
  merged h3_data src name g old =
      let alias = full_name src.source name in
      let rec = maybe old (λ r. r) (new_record src name g) in
      take_h2 (is_real_source src) (or_else (get_at name src.h2_data) g.h2)
        (take_h3 src (get_at name h3_data) (take_name src alias (add_alias alias g.version rec)))

  module _ (dumps : Norm → Text) (h3_data : List (Text × H3 J)) where
    -- `_key(fp)`, of the fingerprint that the record holds.
    abbrev pub key_of : Source J → Golden J → Text
    key_of src g = dumps (norm (of_mode src.mode g.fingerprint) false)

    unfoldable pub add_entries :
        Source J → List (Text × Golden J) → List (Text × Record J) → List (Text × Record J)
    unfolding merged
    add_entries src [] registry = registry
    add_entries src ((name, g) ∷ entries) registry =
        add_entries src entries (modify (key_of src g) (merged h3_data src name g) registry)

    unfoldable pub add_sources : List (Source J) → List (Text × Record J) → List (Text × Record J)
    unfolding add_entries
    add_sources [] registry = registry
    add_sources (src ∷ sources) registry =
        add_sources sources (add_entries src src.tls_data registry)

    unfoldable pub build : List (Source J) → List (Text × Record J)
    unfolding add_sources
    build sources = add_sources sources []
