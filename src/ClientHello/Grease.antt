-- ===== src/ClientHello/Grease.antt =====
-- GREASE values (RFC 8701), `is_grease` of oracle/clienthello.py.
use browserfp.Prelude.{ℕ, ◌/◌, Bool, not, ◌&&◌, List, ◌==◌, bit_and, filter}

unfoldable pub is_grease : ℕ → Bool
is_grease v = bit_and v 0x0f0f == 0x0a0a && v / 256 == bit_and v 0xff

-- `[v for v in vs if not is_grease(v)]`
abbrev pub drop_grease : List ℕ → List ℕ
drop_grease = filter (λ v. not (is_grease v))
