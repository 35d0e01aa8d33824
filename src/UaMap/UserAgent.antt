-- ===== src/UaMap/UserAgent.antt =====
-- `parse_ua` and `chromium_engine` of oracle/uamap.py, with the patterns they use.
use browserfp.Prelude.{
  maybe, get_or, ℕ, Bool, false, ◌&&◌, ◌||◌, not, List, [], ◌∷◌, ◌++◌, ltb, ◌==◌, if◌then◌else◌,
  Option, some, none,
}
use browserfp.Text.{Text, text}
use browserfp.Pattern.{
  same_text, is_some, or_else, literal, search_for, contains_any, is_digit, is_word, is_blank,
  number, skip_while, skip_some, without_suffix,
}

-- `LITERAL(\d+)`
unfoldable pub numbered : Text → Text → Option ℕ
unfolding literal number
numbered name t = elim (literal name t) [
  | none ↦ none
  | some rest ↦ elim (number rest) [ none ↦ none | some r ↦ some r.0 ]
]

unfoldable pub edge_at : Text → Option ℕ
unfolding numbered
edge_at t = or_else (numbered (text "Edge/") t) (
    or_else (numbered (text "EdgA/") t)
      (or_else (numbered (text "EdgiOS/") t) (numbered (text "Edg/") t)))

-- What follows a version of Safari: `[\d.]*\s+(?:Mobile/\S+\s+)?Safari/`.
abbrev pub is_version_char : ℕ → Bool
is_version_char c = is_digit c || c == 46

unfoldable pub safari_tail : Text → Bool
unfolding skip_while skip_some literal
safari_tail t = elim (skip_some is_blank (skip_while is_version_char t)) [
  | none ↦ false
  | some u ↦ is_some (literal (text "Safari/") u) || elim (literal (text "Mobile/") u) [
    | none ↦ false
    | some v ↦ elim (skip_some (λ c. not (is_blank c)) v) [
      | none ↦ false
      | some w ↦ elim (skip_some is_blank w) [
        | none ↦ false
        | some x ↦ is_some (literal (text "Safari/") x)
      ]
    ]
  ]
]

unfoldable pub safari_at : Text → Option ℕ
unfolding literal number safari_tail
safari_at t = elim (literal (text "Version/") t) [
  | none ↦ none
  | some rest ↦ elim (number rest) [
    | none ↦ none
    | some r ↦ if safari_tail r.1 then some r.0 else none
  ]
]

-- `UA_RULES`, the more specific marks first.
abbrev pub ua_rules : List (Text × (Text → Option ℕ))
ua_rules =
    (text "edge", edge_at)
    ∷ (text "opera", numbered (text "OPR/"))
    ∷ (text "firefox", numbered (text "Firefox/"))
    ∷ (text "safari", safari_at)
    ∷ (text "chrome", numbered (text "Chrome/"))
    ∷ []

-- `CHROME_VER`, `MOBILE_UA` and `IOS_THIRD_PARTY`; the last wants no word character in front.
abbrev pub chrome_ver : Text → Option ℕ
chrome_ver = search_for (numbered (text "Chrome/"))

abbrev pub mobile_marks : List Text
mobile_marks =
    text "Android"
    ∷ text "iPhone"
    ∷ text "iPad"
    ∷ text "iPod"
    ∷ text "; Mobile"
    ∷ text "Mobile Safari"
    ∷ []

abbrev pub third_party_names : List Text
third_party_names =
    text "CriOS/" ∷ text "FxiOS/" ∷ text "EdgiOS/" ∷ text "OPiOS/" ∷ text "YaBrowser/" ∷ []

abbrev pub starts_with_any : List Text → Text → Bool
starts_with_any [] t = false
starts_with_any (n ∷ ns) t = is_some (literal n t) || starts_with_any ns t

unfoldable pub ios_third_party : Bool → Text → Bool
unfolding literal
ios_third_party behind_word [] = false
ios_third_party behind_word (c ∷ t) =
    let later = ios_third_party (is_word c) t in
    not behind_word && starts_with_any third_party_names (c ∷ t) || later

-- `IOS_VERSION`: `CPU (?:iPhone )?OS (\d+)[_.]`
unfoldable pub ios_version_at : Text → Option ℕ
unfolding literal number
ios_version_at t = elim (or_else (literal (text "CPU iPhone OS ") t) (literal (text "CPU OS ") t)) [
  | none ↦ none
  | some rest ↦ elim (number rest) [
    | none ↦ none
    | some (n, []) ↦ none
    | some (n, c ∷ after) ↦ if c == 95 || c == 46 then some n else none
  ]
]

abbrev pub mobile_suffix : Text
mobile_suffix = text "-mobile"

-- `base in CHROMIUM_DERIVED`
abbrev pub is_derived : Text → Bool
is_derived base = same_text base (text "edge") || same_text base (text "opera")

-- The browser whose engine a derived brand has, with the platform kept.
unfoldable pub chromium_engine : Text → Option Text
unfolding without_suffix
chromium_engine brand = elim (without_suffix mobile_suffix brand) [
  | some base ↦ if is_derived base then some (text "chrome-mobile") else none
  | none ↦ if is_derived brand then some (text "chrome") else none
]

-- The loop over `UA_RULES`. A version beyond 16 bits is no version; that of a derived browser is its
-- engine's.
unfoldable pub by_rules : List (Text × (Text → Option ℕ)) → Bool → Text → Option (Text × ℕ)
unfolding search_for
by_rules [] mobile ua = none
by_rules ((brand, pattern) ∷ rules) mobile ua =
    let next = by_rules rules mobile ua in
    let name = if mobile then brand ++ mobile_suffix else brand in
    maybe (search_for pattern ua)
      (λ ver.
        if ltb 65535 ver
        then none
        else if is_derived brand
        then some (name, get_or ver (chrome_ver ua))
        else some (name, ver))
      next

unfoldable pub parse_ua : Text → Option (Text × ℕ)
unfolding by_rules ios_third_party search_for literal
parse_ua ua =
    if not (is_some (literal (text "Mozilla/") ua))
    then none
    else if ios_third_party false ua
    then maybe (search_for ios_version_at ua) (λ v. some (text "safari-mobile", v)) none
    else by_rules ua_rules (contains_any mobile_marks ua) ua
