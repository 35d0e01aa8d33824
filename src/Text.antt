-- ===== src/Text.antt =====
-- Text as lists of code points: `str`, `join`, the `x` and `d` formats, `hex` and `fromhex`.
use browserfp.Prelude.{
  ℕ, zero, suc, ◌+◌, ◌-◌, ◌*◌, ◌/◌, ◌%◌, ◌<◌, ◌≡◌, refl, Bool, ◌&&◌, ◌||◌, List, [], ◌∷◌, ◌++◌, All,
  ltb, leb, ◌==◌, if◌then◌else◌, Result, ok, err, value_error, ◌>>=◌, Option, some, none, or_raise,
  arith,
}
use browserfp.Bytes.{IsByte}
use Prim.Native.Char.{code}
use Prim.Native.String.{String}

abbrev pub Text : Type 0
Text = List ℕ

abbrev pub text : String → Text
text String.[] = []
text (String.◌∷◌ c s) = code c ∷ text s

unfoldable pub hex_digit : ℕ → ℕ
hex_digit d = if ltb d 10 then 48 + d else 87 + d

-- `f"{v:04x}"` of a 16-bit value
unfoldable pub hex04 : ℕ → Text
hex04 v =
    hex_digit (v / 4096 % 16)
    ∷ hex_digit (v / 256 % 16)
    ∷ hex_digit (v / 16 % 16)
    ∷ hex_digit (v % 16)
    ∷ []

-- `f"{n:02d}"` of a number below 100
unfoldable pub dec02 : ℕ → Text
dec02 n = (48 + n / 10) ∷ (48 + n % 10) ∷ []

-- The decimal digits of `n`, behind those already found; a number has fewer digits than its value.
str_from : ℕ → ℕ → Text → Text
str_from zero n acc = acc
str_from (suc fuel) n acc =
    let rest = str_from fuel (n / 10) ((48 + n % 10) ∷ acc) in
    if ltb n 10 then (48 + n) ∷ acc else rest

-- `str(n)`
unfoldable pub str : ℕ → Text
unfolding str_from
str n = str_from (suc n) n []

-- `sep.join(parts)`
unfoldable pub join : Text → List Text → Text
join sep [] = []
join sep (t ∷ []) = t
join sep (t ∷ u ∷ ts) = t ++ (sep ++ join sep (u ∷ ts))

-- `b.hex()`
unfoldable pub hex : List ℕ → Text
unfolding hex_digit
hex [] = []
hex (b ∷ bs) = hex_digit (b / 16) ∷ hex_digit (b % 16) ∷ hex bs

unfoldable pub hex_value : ℕ → Option ℕ
hex_value c =
    if leb 48 c && leb c 57
    then some (c - 48)
    else if leb 97 c && leb c 102
    then some (c - 87)
    else if leb 65 c && leb c 70
    then some (c - 55)
    else none

pub is_space : ℕ → Bool
is_space c = c == 32 || leb 9 c && leb c 13

-- `bytes.fromhex(t)`, which passes over white space between two bytes
unfoldable pub from_hex : Text → Result (List ℕ)
unfolding hex_value is_space
from_hex [] = ok []
from_hex (c ∷ []) = if is_space c then ok [] else err value_error
from_hex (c ∷ d ∷ t) =
    let skipped = from_hex (d ∷ t) in
    let rest = from_hex t in
    if is_space c then skipped else do
      hi ← or_raise value_error (hex_value c)
      lo ← or_raise value_error (hex_value d)
      bs ← rest
      ok ((hi * 16 + lo) ∷ bs)

hex_value-hex_digit : (d : ℕ) → d < 16 → hex_value (hex_digit d) ≡ some d
unfolding hex_value hex_digit
hex_value-hex_digit d h = ground arith

-- What `hex` writes of bytes, `from_hex` reads back.
pub from_hex-hex : (bs : List ℕ) → All IsByte bs → from_hex (hex bs) ≡ ok bs
unfolding hex from_hex
from_hex-hex [] h = refl
from_hex-hex (b ∷ bs) h = ground (arith, from_hex-hex bs h.1)
