-- ===== src/Pattern.antt =====
-- What the sources use of Python's `re` and of the methods of `str`, on ASCII text: a pattern is a
-- function from the text at a place to what it captures there.
use browserfp.Prelude.{
  ℕ, zero, suc, ◌+◌, ◌-◌, ◌*◌, Bool, true, false, ◌&&◌, ◌||◌, List, [], ◌∷◌, map, leb, ◌==◌,
  if◌then◌else◌, Option, some, none, Result, ok, err, index_error,
}
use browserfp.Text.{Text}

-- `xs == ys`
abbrev pub same_text : Text → Text → Bool
same_text [] [] = true
same_text (x ∷ xs) (y ∷ ys) = x == y && same_text xs ys
same_text _ _ = false

abbrev pub is_some {ℓ} : {A : Type ℓ} → Option A → Bool
is_some none = false
is_some (some a) = true

-- `a or b`
abbrev pub or_else {ℓ} : {A : Type ℓ} → Option A → Option A → Option A
or_else (some a) b = some a
or_else none b = b

-- A literal at the start of the text, and what follows it.
unfoldable pub literal : Text → Text → Option Text
literal [] t = some t
literal (c ∷ cs) [] = none
literal (c ∷ cs) (d ∷ t) = let rest = literal cs t in if c == d then rest else none

-- `pattern.search`: the leftmost place where the pattern fits.
unfoldable pub search_for {ℓ} : {A : Type ℓ} → (Text → Option A) → Text → Option A
search_for p [] = p []
search_for p (c ∷ t) = or_else (p (c ∷ t)) (search_for p t)

-- `needle in t`
unfoldable pub contains : Text → Text → Bool
unfolding search_for literal
contains needle t = is_some (search_for (literal needle) t)

abbrev pub contains_any : List Text → Text → Bool
contains_any [] t = false
contains_any (n ∷ ns) t = contains n t || contains_any ns t

abbrev pub is_digit : ℕ → Bool
is_digit c = leb 48 c && leb c 57

-- `\w`
abbrev pub is_word : ℕ → Bool
is_word c = is_digit c || leb 65 c && leb c 90 || leb 97 c && leb c 122 || c == 95

-- `\s`
abbrev pub is_blank : ℕ → Bool
is_blank c = c == 32 || leb 9 c && leb c 13 || leb 28 c && leb c 31

-- The longest run of digits, its value behind the digits before, and what follows.
unfoldable pub digits : ℕ → Text → ℕ × Text
digits n [] = (n, [])
digits n (c ∷ t) =
    let more = digits (n * 10 + (c - 48)) t in if is_digit c then more else (n, c ∷ t)

-- `(\d+)` and `int` of it
unfoldable pub number : Text → Option (ℕ × Text)
unfolding digits
number [] = none
number (c ∷ t) = if is_digit c then some (digits 0 (c ∷ t)) else none

-- The text behind the longest run of such characters, and the same where there is one at least.
unfoldable pub skip_while : (ℕ → Bool) → Text → Text
skip_while test [] = []
skip_while test (c ∷ t) = let rest = skip_while test t in if test c then rest else c ∷ t

unfoldable pub skip_some : (ℕ → Bool) → Text → Option Text
unfolding skip_while
skip_some test [] = none
skip_some test (c ∷ t) = if test c then some (skip_while test t) else none

-- `t.endswith(suffix)`, with `t` less the suffix.
unfoldable pub without_suffix : Text → Text → Option Text
without_suffix suffix [] = if same_text [] suffix then some [] else none
without_suffix suffix (c ∷ t) =
    let rest = without_suffix suffix t in
    if same_text (c ∷ t) suffix then some [] else elim rest [ some r ↦ some (c ∷ r) | none ↦ none ]

-- `t.replace(old, "")`, with the number of characters still to leave out.
unfoldable pub remove_from : Text → ℕ → Text → Text
unfolding literal
remove_from old n [] = []
remove_from old (suc n) (c ∷ t) = remove_from old n t
remove_from old zero (c ∷ t) =
    let found = remove_from old (length_less_one old) t in
    let kept = c ∷ remove_from old zero t in if is_some (literal old (c ∷ t)) then found else kept
  where
    length_less_one : Text → ℕ
    length_less_one [] = 0
    length_less_one (x ∷ []) = 0
    length_less_one (x ∷ y ∷ xs) = suc (length_less_one (y ∷ xs))

-- `t.split(":", 1)[0]` and `t.split(":", 1)[1]`
unfoldable pub before_colon : Text → Text
before_colon [] = []
before_colon (c ∷ t) = let rest = before_colon t in if c == 58 then [] else c ∷ rest

unfoldable pub after_colon : Text → Result Text
after_colon [] = err index_error
after_colon (c ∷ t) = let rest = after_colon t in if c == 58 then ok t else rest

-- `t.lower()`
abbrev pub lower : Text → Text
lower = map (λ c. if leb 65 c && leb c 90 then c + 32 else c)
