-- ===== src/Derive/Verified.antt =====
-- What `verify_rule` of oracle/derive.py has checked when the rule holds.
use browserfp.Prelude.{◌≡◌, false, List, some, Result, ok}
use browserfp.Text.{Text}
use browserfp.Match.Norm.{norm}
use browserfp.Match.Matcher.{Entry}
use browserfp.Derive.Delta.{Delta, apply_delta}
use browserfp.Derive.Rule.{Tables, find_record, platform_delta}

module _ (sha256 : Text → Text) (extract : Text → Text → Result Tables) where
  -- The records of an anchor, and the rule that turns the one's profile into the other's.
  pub record IsAnchored (registry : List Entry) (a : Text × Text × Text) : Type 0 where
    pub desk : Entry
    pub mob : Entry
    pub delta : Delta
    pub desk_found : find_record registry a.0 ≡ some desk
    pub mob_found : find_record registry a.1 ≡ some mob
    pub read : platform_delta sha256 extract a.2 ≡ ok delta
    pub same : norm (apply_delta sha256 desk.tls delta) false ≡ norm mob.tls false
