-- ===== src/Derive/Rule.antt =====
-- `_find`, `platform_delta`, `verify_rule` and `derive` of oracle/derive.py. What oracle/nsssrc.py extracts
-- from the source of a version is a parameter.
use browserfp.Prelude.{
  ℕ, Bool, false, not, ◌&&◌, ◌||◌, List, [], ◌∷◌, any, Option, none, some, maybe, ◌==◌,
  if◌then◌else◌, Result, ok, ◌>>=◌, or_raise, key_error,
}
use browserfp.Text.{Text, text}
use browserfp.ClientHello.Fingerprint.{Fingerprint}
use browserfp.Match.Norm.{norm, diff, same_list}
use browserfp.Match.Matcher.{Entry, is_alias}
use browserfp.Keyed.{get_at}
use browserfp.Derive.Delta.{Delta, mlkem_group, apply_delta}

-- The tables of a version on a platform; a curve is there by its name.
pub record Tables : Type 0 where
  pub sct : Bool
  pub ech : Bool
  pub curves : List Text

-- `CURVE_IDS`
abbrev pub curve_table : List (Text × ℕ)
curve_table =
    (text "ssl_grp_ec_curve25519", 0x1D)
    ∷ (text "ssl_grp_ec_secp256r1", 0x17)
    ∷ (text "ssl_grp_ec_secp384r1", 0x18)
    ∷ (text "ssl_grp_ec_secp521r1", 0x19)
    ∷ (text "ssl_grp_ffdhe_2048", 0x100)
    ∷ (text "ssl_grp_ffdhe_3072", 0x101)
    ∷ (text "ssl_grp_kem_mlkem768x25519", 0x11EC)
    ∷ (text "ssl_grp_kem_xyber768d00", 0x6399)
    ∷ []

-- `MLKEM_GROUP in _curve_ids(tables)`: a name without a number is none.
unfoldable pub has_mlkem : Tables → Bool
has_mlkem t = any (λ c. maybe (get_at c curve_table) (λ id. id == mlkem_group) false) t.curves

-- `ANCHOR`: the alias of the desktop's record, that of the mobile one, and the version.
abbrev pub anchors : List (Text × (Text × Text × Text))
anchors =
    (text "firefox-mobile", (text "wreq:Firefox135", text "wreq:FirefoxAndroid135", text "135"))
    ∷ []

unfoldable pub find_record : List Entry → Text → Option Entry
find_record [] alias = none
find_record (rec ∷ registry) alias =
    let rest = find_record registry alias in
    if same_list rec.id alias || is_alias alias rec.aliases then some rec else rest

pub data Verdict : Type 0 where
  no_anchor no_record : Verdict
  differs : List Text → Verdict
  holds : Verdict

abbrev pub of_diff : List Text → Verdict
of_diff [] = holds
of_diff (f ∷ fields) = differs (f ∷ fields)

module _ (sha256 : Text → Text) (extract : Text → Text → Result Tables) where
  unfoldable pub platform_delta : Text → Result Delta
  unfolding has_mlkem
  platform_delta version = do
    d ← extract version (text "desktop")
    a ← extract version (text "android")
    ok (record {
      drop_sct = d.sct && not a.sct;
      drop_mlkem = has_mlkem d && not (has_mlkem a);
      drop_ech = d.ech && not a.ech;
    })

  -- The desktop's profile of the anchor, without what the platform leaves out, against the mobile one.
  abbrev pub check_anchor : Text → Option Entry → Option Entry → Result Verdict
  check_anchor ver (some desk) (some mob) = do
    delta ← platform_delta ver
    ok (of_diff (diff (norm (apply_delta sha256 desk.tls delta) false) (norm mob.tls false)))
  check_anchor ver _ _ = ok no_record

  unfoldable pub verify_rule : Text → List Entry → Result Verdict
  unfolding platform_delta
  verify_rule brand registry =
      maybe (get_at brand anchors)
        (λ a. check_anchor a.2 (find_record registry a.0) (find_record registry a.1)) (ok no_anchor)

  unfoldable pub derive : Text → List Entry → Text → Result (Fingerprint × Delta)
  unfolding platform_delta
  derive version registry source_alias = do
    src ← or_raise key_error (find_record registry source_alias)
    delta ← platform_delta version
    ok (apply_delta sha256 src.tls delta, delta)

-- `h2_delta`: HTTP/2 is that of the mobile record of the anchor, if there is one.
unfoldable pub h2_delta : Text → List Entry → Option Text
h2_delta brand registry =
    maybe (get_at brand anchors) (λ a. maybe (find_record registry a.1) (λ mob. mob.h2) none) none
