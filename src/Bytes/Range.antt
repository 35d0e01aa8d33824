-- ===== src/Bytes/Range.antt =====
-- Reads at an offset: the lengths they need, and the rules to show that a reader ends.
use browserfp.Prelude.{
  ℕ, zero, suc, ◌+◌, ◌<◌, ◌≤◌, ◌≡◌, List, [], ◌∷◌, length, get_elem?, drop, length-drop, ok, some,
  arith,
}
use browserfp.Prelude.Ends.{Ends, ends_rules, Ends-or_raise, Ends-err, Ends-ok}
use browserfp.Bytes.{byte_at, u16_at, u24_at, u16s_at, first_word}

get_elem?-lt : (b : List ℕ) (o x : ℕ) → get_elem? b o ≡ some x → o < length b
get_elem?-lt [] o x h = cc
get_elem?-lt (y ∷ b) zero x h = omega arith
get_elem?-lt (y ∷ b) (suc o) x h = omega (arith, get_elem?-lt b o x h)

pub byte_at-lt : (b : List ℕ) (o x : ℕ) → byte_at b o ≡ ok x → o < length b
unfolding byte_at
byte_at-lt b o x h = ground (arith, get_elem?-lt b o x)

first_word-lt : (b : List ℕ) (x : ℕ) → first_word b ≡ ok x → 2 ≤ length b
first_word-lt [] x h = cc
first_word-lt (y ∷ []) x h = cc
first_word-lt (y ∷ z ∷ b) x h = omega arith

pub u16_at-lt : (b : List ℕ) (o x : ℕ) → u16_at b o ≡ ok x → o + 2 ≤ length b
unfolding u16_at
u16_at-lt b o x h = omega (arith, first_word-lt (drop o b) x h, length-drop o b)

pub byte_at-Ends : (b : List ℕ) (o : ℕ) → Ends (byte_at b o)
unfolding byte_at
byte_at-Ends b o = Ends-or_raise _ (get_elem? b o)

first_word-Ends : (b : List ℕ) → Ends (first_word b)
first_word-Ends [] = Ends-err _
first_word-Ends (y ∷ []) = Ends-err _
first_word-Ends (y ∷ z ∷ b) = Ends-ok _

pub u16_at-Ends : (b : List ℕ) (o : ℕ) → Ends (u16_at b o)
unfolding u16_at
u16_at-Ends b o = first_word-Ends (drop o b)

pub u24_at-Ends : (b : List ℕ) (o : ℕ) → Ends (u24_at b o)
unfolding u24_at
u24_at-Ends b o = search (ends_rules, byte_at-Ends) depth 8

pub u16s_at-Ends : (b : List ℕ) (o n : ℕ) → Ends (u16s_at b o n)
unfolding u16s_at
u16s_at-Ends b o n = search ends_rules

pub ruleset reads_end = (ends_rules, byte_at-Ends, u16_at-Ends, u24_at-Ends, u16s_at-Ends)
