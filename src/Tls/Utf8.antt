-- ===== src/Tls/Utf8.antt =====
-- `bytes.decode()` of Python: UTF-8, and an exception for what is none.
use browserfp.Prelude.{
  ℕ, zero, suc, ◌+◌, ◌-◌, ◌*◌, ◌&&◌, List, [], ◌∷◌, ltb, leb, ◌==◌, if◌then◌else◌, Result, ok, err,
  ◌>>=◌, value_error,
}
use browserfp.Text.{Text}

-- With `more` bytes of a character to come, the next of them between `lo` and `hi`, and the bits so far.
unfoldable pub decode_from : ℕ → ℕ → ℕ → ℕ → List ℕ → Result Text
decode_from zero lo hi bits [] = ok []
decode_from (suc more) lo hi bits [] = err value_error
decode_from zero lo hi bits (b ∷ bs) =
    let ascii = decode_from zero 0 0 0 bs in
    let two = decode_from 1 0x80 0xbf (b - 0xc0) bs in
    let three_low = decode_from 2 0xa0 0xbf 0 bs in
    let three_high = decode_from 2 0x80 0x9f 13 bs in
    let three = decode_from 2 0x80 0xbf (b - 0xe0) bs in
    let four_low = decode_from 3 0x90 0xbf 0 bs in
    let four_high = decode_from 3 0x80 0x8f 4 bs in
    let four = decode_from 3 0x80 0xbf (b - 0xf0) bs in
    if ltb b 0x80
    then ascii >>= (λ t. ok (b ∷ t))
    else if leb 0xc2 b && leb b 0xdf
    then two
    else if b == 0xe0
    then three_low
    else if b == 0xed
    then three_high
    else if leb 0xe1 b && leb b 0xef
    then three
    else if b == 0xf0
    then four_low
    else if b == 0xf4
    then four_high
    else if leb 0xf1 b && leb b 0xf3
    then four
    else err value_error
decode_from (suc zero) lo hi bits (b ∷ bs) =
    let rest = decode_from zero 0 0 0 bs in
    if leb lo b && leb b hi
    then rest >>= (λ t. ok ((bits * 64 + (b - 0x80)) ∷ t))
    else err value_error
decode_from (suc (suc more)) lo hi bits (b ∷ bs) =
    let rest = decode_from (suc more) 0x80 0xbf (bits * 64 + (b - 0x80)) bs in
    if leb lo b && leb b hi then rest else err value_error

unfoldable pub decode_utf8 : List ℕ → Result Text
unfolding decode_from
decode_utf8 bs = decode_from zero 0 0 0 bs
