-- ===== src/Quic/Varint.antt =====
-- `_parse_varint` of oracle/quic.py (RFC 9000, section 16).
use browserfp.Prelude.{
  ok_bind, ok-injective, ◌>>=◌, ℕ, zero, suc, ◌+◌, ◌-◌, ◌*◌, ◌/◌, ◌%◌, ◌^◌, ◌<◌, ◌≡◌, ap, List,
  length, ltb, leb, Result, ok, ◌>>=◌, ◌>>◌, raise_if, arith, varint_out_of_range, varint_truncated,
}
use browserfp.Prelude.Ends.{Ends, Ends-bind, Ends-ok}
use browserfp.Bytes.{byte_at}
use browserfp.Bytes.Range.{byte_at-Ends, reads_end}

-- `for k in range(1, length): value = (value << 8) | buf[i + k]`, from `buf[i]` on: the shifted value
-- shares no bit with the byte.
unfoldable pub varint_tail : ℕ → List ℕ → ℕ → ℕ → Result ℕ
varint_tail zero buf i value = ok value
varint_tail (suc n) buf i value = do b ← byte_at buf i; varint_tail n buf (i + 1) (value * 256 + b)

-- The value and the offset behind it. The two highest bits of the first byte give the length.
unfoldable pub parse_varint : List ℕ → ℕ → Result (ℕ × ℕ)
unfolding varint_tail
parse_varint buf i = do
  raise_if (leb (length buf) i) varint_out_of_range
  b ← byte_at buf i
  let len = 2 ^ (b / 64)
  raise_if (ltb (length buf) (i + len)) varint_truncated
  value ← varint_tail (len - 1) buf (i + 1) (b % 64)
  ok (value, i + len)

varint_tail-Ends : (n : ℕ) (buf : List ℕ) (i value : ℕ) → Ends (varint_tail n buf i value)
unfolding varint_tail
varint_tail-Ends zero buf i value = Ends-ok value
varint_tail-Ends (suc n) buf i value =
    Ends-bind _ _ (byte_at-Ends buf i) (λ b _. varint_tail-Ends n buf (i + 1) (value * 256 + b))

pub parse_varint-Ends : (buf : List ℕ) (i : ℕ) → Ends (parse_varint buf i)
unfolding parse_varint
parse_varint-Ends buf i = search (reads_end, varint_tail-Ends) depth 12

pow_pos : (n : ℕ) → 0 < 2 ^ n
pow_pos zero = omega arith
pow_pos (suc n) = omega (arith, pow_pos n)

-- The offset returned lies behind the one given.
pub parse_varint-lt : (buf : List ℕ) (i : ℕ) (p : ℕ × ℕ) → parse_varint buf i ≡ ok p → i < p.1
unfolding parse_varint
parse_varint-lt buf i p h =
    ok_bind (raise_if (leb (length buf) i) varint_out_of_range) _ h λ _ _ h1.
      ok_bind (byte_at buf i) _ h1 λ b _ h2.
        ok_bind (raise_if (ltb (length buf) (i + 2 ^ (b / 64))) varint_truncated) _ h2 λ _ _ h3.
          ok_bind (varint_tail (2 ^ (b / 64) - 1) buf (i + 1) (b % 64)) _ h3 λ v _ h4.
            let e : (i + 2 ^ (b / 64)) ≡ p.1 = ap (λ q. q.1) (ok-injective h4) in
            let pos : 0 < 2 ^ (b / 64) = pow_pos (b / 64) in omega arith
