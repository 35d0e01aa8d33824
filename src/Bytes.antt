-- ===== src/Bytes.antt =====
-- Byte strings as lists of numbers below 256, read at an offset the way Python reads them: an index
-- or an `unpack_from` out of range raises, and a slice is cut short.
pub mod Cursor
pub mod Range
use browserfp.Prelude.{
  ℕ, zero, suc, ◌+◌, ◌-◌, ◌*◌, ◌/◌, ◌%◌, ◌<◌, List, [], ◌∷◌, ◌++◌, map, length, get_elem?, take,
  drop, All, ltb, if◌then◌else◌, Result, ok, err, or_raise, index_error, struct_error,
  overflow_error, value_error, ◌>>=◌,
}

abbrev pub IsByte : ℕ → Type 0
IsByte b = b < 256

abbrev pub IsWord : ℕ → Type 0
IsWord w = w < 65536

-- `b[o]`; the source's `_u8` adds the offset behind it.
unfoldable pub byte_at : List ℕ → ℕ → Result ℕ
byte_at b o = or_raise index_error (get_elem? b o)

-- `b[i:j]`
unfoldable pub slice : List ℕ → ℕ → ℕ → List ℕ
slice b i j = take (j - i) (drop i b)

abbrev pub first_word : List ℕ → Result ℕ
first_word (hi ∷ lo ∷ rest) = ok (hi * 256 + lo)
first_word _ = err struct_error

-- `struct.unpack_from(">H", b, o)[0]`
unfoldable pub u16_at : List ℕ → ℕ → Result ℕ
u16_at b o = first_word (drop o b)

-- `(b[o] << 16) | (b[o + 1] << 8) | b[o + 2]`: the shifted bytes share no bit.
unfoldable pub u24_at : List ℕ → ℕ → Result ℕ
unfolding byte_at
u24_at b o = do
  x ← byte_at b o
  y ← byte_at b (o + 1)
  z ← byte_at b (o + 2)
  ok (x * 65536 + y * 256 + z)

abbrev pub words : ℕ → List ℕ → List ℕ
words zero bs = []
words (suc n) (hi ∷ lo ∷ bs) = (hi * 256 + lo) ∷ words n bs
words (suc n) _ = []

-- `struct.unpack_from(f">{n}H", b, o)`
unfoldable pub u16s_at : List ℕ → ℕ → ℕ → Result (List ℕ)
u16s_at b o n = if ltb (length b) (o + 2 * n) then err struct_error else ok (words n (drop o b))

-- The two bytes of a 16-bit word, and the bytes of a list of words.
abbrev pub be16 : ℕ → List ℕ
be16 v = (v / 256) ∷ (v % 256) ∷ []

abbrev pub be16s : List ℕ → List ℕ
be16s [] = []
be16s (v ∷ vs) = (v / 256) ∷ (v % 256) ∷ be16s vs

-- `struct.pack(">H", v)`
unfoldable pub pack16 : ℕ → Result (List ℕ)
pack16 v = if ltb v 65536 then ok (be16 v) else err struct_error

-- `bytes([v])`
unfoldable pub pack8 : ℕ → Result (List ℕ)
pack8 v = if ltb v 256 then ok (v ∷ []) else err value_error

-- `b.decode("ascii", "replace")`: every byte beyond ASCII becomes U+FFFD.
abbrev pub decode_ascii : List ℕ → List ℕ
decode_ascii = map (λ b. if ltb b 128 then b else 0xfffd)
