-- ===== src/Tcp/Options.antt =====
-- `parse_tcp_options` of oracle/ja4t.py.
use browserfp.Prelude.{
  ℕ, zero, suc, ◌||◌, List, [], ◌∷◌, length, drop, ltb, ◌==◌, if◌then◌else◌, Result, ok, stuck,
  ◌>>=◌,
}
use browserfp.Bytes.{slice}

-- The kind of an option and its value.
abbrev pub TcpOption : Type 0
TcpOption = ℕ × List ℕ

-- The loop from an offset on, given the bytes from there, `raw[i:]`. A round takes a byte at least, so
-- `length raw + 1` rounds are enough. The end of the list (0), a missing length byte, and a length that
-- is below 2 or beyond the bytes leave the loop; a NOP (1) is kept.
unfoldable pub options_from : ℕ → List ℕ → Result (List TcpOption)
options_from zero raw = stuck
options_from (suc fuel) [] = ok []
options_from (suc fuel) (kind ∷ []) =
    let next = options_from fuel [] in
    if kind == 0
    then ok []
    else if kind == 1
    then next >>= (λ rest. ok ((kind, []) ∷ rest))
    else ok []
options_from (suc fuel) (kind ∷ len ∷ more) =
    let raw = kind ∷ len ∷ more in
    let after_nop = options_from fuel (len ∷ more) in
    let after_option = options_from fuel (drop len raw) in
    if kind == 0
    then ok []
    else if kind == 1
    then after_nop >>= (λ rest. ok ((kind, []) ∷ rest))
    else if ltb len 2 || ltb (length raw) len
    then ok []
    else after_option >>= (λ rest. ok ((kind, slice raw 2 len) ∷ rest))

unfoldable pub parse_tcp_options : List ℕ → Result (List TcpOption)
unfolding options_from
parse_tcp_options raw = options_from (suc (length raw)) raw
