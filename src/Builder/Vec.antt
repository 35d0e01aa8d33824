-- ===== src/Builder/Vec.antt =====
-- `_u16` and `_vec` of oracle/chbuild.py, and the byte strings that are joined from many of them.
use browserfp.Prelude.{
  ℕ, zero, suc, ◌/◌, ◌%◌, List, [], ◌∷◌, ◌++◌, length, Result, ok, err, ◌>>=◌, value_error,
}
use browserfp.Bytes.{pack8, pack16}

-- A vector behind its length, in one, two or three bytes. Three bytes keep the low 24 bits.
unfoldable pub vec : List ℕ → ℕ → Result (List ℕ)
vec body (suc zero) = do n ← pack8 (length body); ok (n ++ body)
vec body (suc (suc zero)) = do n ← pack16 (length body); ok (n ++ body)
vec body (suc (suc (suc zero))) =
    let n = length body in ok (((n / 65536) % 256) ∷ ((n / 256) % 256) ∷ (n % 256) ∷ body)
vec body _ = err value_error

-- `b"".join(_u16(v) for v in vs)`
unfoldable pub pack16s : List ℕ → Result (List ℕ)
pack16s [] = ok []
pack16s (v ∷ vs) = do b ← pack16 v; bs ← pack16s vs; ok (b ++ bs)

-- `bytes(vs)`
unfoldable pub pack8s : List ℕ → Result (List ℕ)
pack8s [] = ok []
pack8s (v ∷ vs) = do b ← pack8 v; bs ← pack8s vs; ok (b ++ bs)

-- `_u16(ext_id) + _vec(body, 2)`
unfoldable pub pack_extension : ℕ → List ℕ → Result (List ℕ)
pack_extension ext_id body = do e ← pack16 ext_id; v ← vec body 2; ok (e ++ v)
