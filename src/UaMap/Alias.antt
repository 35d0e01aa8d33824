-- ===== src/UaMap/Alias.antt =====
-- How oracle/uamap.py reads a brand and a version off an alias of a record.
use browserfp.Prelude.{
  ℕ, zero, suc, ◌+◌, ◌-◌, ◌*◌, ◌/◌, Bool, true, false, not, ◌&&◌, ◌||◌, List, [], ◌∷◌, ◌++◌, length,
  leb, ◌==◌, if◌then◌else◌, Option, some, none, maybe,
}
use browserfp.Text.{Text, text}
use browserfp.Pattern.{
  same_text, literal, contains_any, is_digit, is_word, number, skip_while, skip_some, lower,
  is_some,
}
use browserfp.UaMap.UserAgent.{mobile_suffix}

-- `MOBILE_ALIAS`, whose texts are compared without regard to case.
abbrev pub mobile_words : List Text
mobile_words = text "android" ∷ text "ios" ∷ text "ipad" ∷ text "iphone" ∷ text "mobile" ∷ []

unfoldable pub is_mobile : Text → Bool
is_mobile name = contains_any mobile_words (lower name)

abbrev pub word_at : List Text → Text → Option ℕ
word_at [] t = none
word_at (w ∷ ws) t = if is_some (literal w t) then some (length w - 1) else word_at ws t

-- `MOBILE_ALIAS.sub("", name)`, with the number of characters still to leave out.
unfoldable pub without_words : ℕ → Text → Text
without_words n [] = []
without_words (suc n) (c ∷ t) = without_words n t
without_words zero (c ∷ t) =
    maybe (word_at mobile_words (c ∷ t)) (λ k. without_words k t) (c ∷ without_words zero t)

abbrev pub is_dash : ℕ → Bool
is_dash c = c == 45 || c == 95

-- `[_-]?`
abbrev pub skip_dash : Text → Text
skip_dash [] = []
skip_dash (c ∷ t) = if is_dash c then t else c ∷ t

-- The value of the digits at the start, of `k` at most, behind `n`; how many there are; what follows.
unfoldable pub digits_upto : ℕ → ℕ → ℕ → Text → ℕ × ℕ × Text
digits_upto zero n seen t = (n, seen, t)
digits_upto (suc k) n seen [] = (n, seen, [])
digits_upto (suc k) n seen (c ∷ t) =
    let more = digits_upto k (n * 10 + (c - 48)) (suc seen) t in
    if is_digit c then more else (n, seen, c ∷ t)

-- `(\d{least,most})`, with what follows.
unfoldable pub few_digits : ℕ → ℕ → Text → Option (ℕ × Text)
unfolding digits_upto
few_digits least most t =
    let r = digits_upto most 0 0 t in if leb least r.1 then some (r.0, r.2) else none

-- `ALIAS_BRANDS`, where chromium is chrome.
abbrev pub alias_brands : List (Text × Text)
alias_brands =
    (text "chrome", text "chrome")
    ∷ (text "chromium", text "chrome")
    ∷ (text "firefox", text "firefox")
    ∷ (text "safari", text "safari")
    ∷ (text "edge", text "edge")
    ∷ []

abbrev pub brand_from : List (Text × Text) → Text → Option (Text × Text)
brand_from [] name = none
brand_from ((word, brand) ∷ brands) name =
    maybe (literal word name) (λ rest. some (brand, rest)) (brand_from brands name)

-- Safari 15.5 is written 155.
abbrev pub safari_version : Text → ℕ → ℕ
safari_version brand v = if same_text brand (text "safari") && leb 100 v then v / 10 else v

abbrev pub branded_mobile : Text → Option (Text × ℕ)
branded_mobile name =
    maybe (brand_from alias_brands (without_words zero name))
      (λ b.
        maybe (few_digits 1 3 (skip_while is_dash b.1))
          (λ v. some (b.0 ++ mobile_suffix, safari_version b.0 v.0)) none)
      none

-- An alias of a mobile browser: iOS with its version, or a brand among words for platforms.
unfoldable pub mobile_alias : Text → Option (Text × ℕ)
unfolding without_words few_digits
mobile_alias name =
    maybe (literal (text "ios") name)
      (λ rest.
        maybe (few_digits 1 2 (skip_dash rest)) (λ v. some (text "safari-mobile", v.0))
          (branded_mobile name))
      (branded_mobile name)

abbrev pub no_digit : Text → Bool
no_digit [] = true
no_digit (c ∷ t) = not (is_digit c)

-- An alias of a desktop browser: two or three digits, and no fourth.
unfoldable pub desktop_alias : Text → Option (Text × ℕ)
unfolding few_digits
desktop_alias name =
    maybe (brand_from alias_brands name)
      (λ b.
        maybe (few_digits 2 3 (skip_dash b.1))
          (λ v. if no_digit v.1 then some (b.0, safari_version b.0 v.0) else none) none)
      none

-- Of an alias behind its source, in lower case: Tor has the numbers of other versions.
unfoldable pub read_alias : Text → Option (Text × ℕ)
unfolding is_mobile mobile_alias desktop_alias
read_alias name =
    if contains_any (text "tor" ∷ text "private" ∷ []) name
    then none
    else if is_mobile name
    then mobile_alias name
    else desktop_alias name

-- `t.split("-")[0]`
unfoldable pub before_dash : Text → Text
before_dash [] = []
before_dash (c ∷ t) = let rest = before_dash t in if c == 45 then [] else c ∷ rest

abbrev pub brand_named : List (Text × Text) → Text → Option Text
brand_named [] name = none
brand_named ((word, brand) ∷ brands) name =
    if same_text word name then some brand else brand_named brands name

-- The first digits of a version: `^(?:\D*?)(\d+)`.
unfoldable pub major_of_text : Text → Option ℕ
major_of_text t = maybe (number (skip_while (λ c. not (is_digit c)) t)) (λ v. some v.0) none

-- `^\w+:` and one of the words, without regard to case.
unfoldable pub has_prefix : List Text → Text → Bool
has_prefix words t =
    maybe (skip_some is_word (lower t))
      (λ rest. maybe (literal (text ":") rest) (λ name. is_some (word_at words name)) false) false
