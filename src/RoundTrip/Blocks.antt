-- ===== src/RoundTrip/Blocks.antt =====
-- The extension block on the wire: written, stripped of padding, and read back.
use browserfp.Prelude.{
  ℕ, zero, suc, ◌+◌, ◌*◌, ◌/◌, ◌%◌, ◌<◌, ◌≤◌, ◌≡◌, refl, sym, ap, ◌∙◌, Bool, not, List, [], ◌∷◌,
  ◌++◌, append-nil, append_assoc, length, length-append, drop, take-append, drop-append, filter,
  All, ◌==◌, lt→ltb, le→ltb, Bool-cases, inl, inr, ok, >>=-eq-ok, ok-injective, arith,
}
use browserfp.Bytes.{be16, IsWord, u16_at, pack16}
use browserfp.Bytes.Cursor.{u16_at-drop, drop-next, slice-drop}
use browserfp.ClientHello.Parse.{Extension, extensions_from}
use browserfp.Builder.Vec.{vec, pack_extension}
use browserfp.Builder.Permute.{padding_ext}
use browserfp.Builder.Padding.{strip_from, ext_bytes_wo_padding}

-- What `_u16` and `_vec` write for a list of extensions.
unfoldable pub encode : List Extension → List ℕ
encode [] = []
encode ((e, b) ∷ rest) = be16 e ++ (be16 (length b) ++ (b ++ encode rest))

abbrev pub Fits : Extension → Type 0
Fits (e, b) = IsWord e × IsWord (length b)

pub be16_value : (v : ℕ) → v / 256 * 256 + v % 256 ≡ v
be16_value v = omega arith

pub pack16-eq_ok : (v : ℕ) {x : List ℕ} → pack16 v ≡ ok x → IsWord v × (x ≡ be16 v)
unfolding pack16
pack16-eq_ok v h = ground arith

pub vec2-eq_ok :
    (b : List ℕ) {x : List ℕ} → vec b 2 ≡ ok x → IsWord (length b) × (x ≡ be16 (length b) ++ b)
unfolding vec
vec2-eq_ok b h =
    let (n, en, e) = >>=-eq-ok (pack16 (length b)) _ h in
    let (w, eq) = pack16-eq_ok (length b) en in (w, sym (ok-injective e) ∙ ap (λ t. t ++ b) eq)

pub pack_extension-eq_ok :
    (e : ℕ) (b : List ℕ) {x : List ℕ}
    → pack_extension e b ≡ ok x
    → Fits (e, b) × ((rest : List ℕ) → x ++ rest ≡ be16 e ++ (be16 (length b) ++ (b ++ rest)))
unfolding pack_extension
pack_extension-eq_ok e b h =
    let (i, ei, h') = >>=-eq-ok (pack16 e) _ h in
    let (v, ev, h'') = >>=-eq-ok (vec b 2) _ h' in
    let (we, qe) = pack16-eq_ok e ei in
    let (wb, qb) = vec2-eq_ok b ev in
    ((we, wb), λ rest. rw (← ok-injective h'', qe, qb, append_assoc) refl)

length-encode_cons :
    (e : ℕ) (b : List ℕ) (rest : List Extension)
    → length (encode ((e, b) ∷ rest)) ≡ 4 + length b + length (encode rest)
unfolding encode
length-encode_cons e b rest = omega (arith, length-append b (encode rest))

-- Reading the block from its first byte, with the extensions that were read before in `out`.
pub extensions_from-encode :
    (fuel : ℕ) (body : List ℕ) (o end : ℕ) (items out : List Extension)
    → All Fits items
    → drop o body ≡ encode items
    → end ≡ o + length (encode items)
    → length (encode items) < fuel
    → extensions_from fuel body o end out ≡ ok (out ++ items)
unfolding extensions_from encode
extensions_from-encode zero body o end items out w d q h = absurd (omega arith)
extensions_from-encode (suc fuel) body o end [] out w d q h =
    rw (le→ltb o end (omega arith), append-nil)
extensions_from-encode (suc fuel) body o end ((e, b) ∷ rest) out w d q h =
    let n = length-encode_cons e b rest in
    let head : List ℕ = (e / 256) ∷ (e % 256) ∷ (length b / 256) ∷ (length b % 256) ∷ [] in
    let id : u16_at body o ≡ ok e = u16_at-drop body o _ _ _ d ∙ ap ok (be16_value e) in
    let d2 = drop-next body o (be16 e) (be16 (length b) ++ (b ++ encode rest)) d in
    let len : u16_at body (o + 2) ≡ ok (length b) =
      u16_at-drop body (o + 2) _ _ _ d2 ∙ ap ok (be16_value (length b)) in
    let d4 : drop (o + 4) body ≡ b ++ encode rest = drop-next body o head (b ++ encode rest) d in
    let s = slice-drop body (o + 4) b (encode rest) d4 in
    let d5 = drop-next body (o + 4) b (encode rest) d4 in
    let more =
      extensions_from-encode fuel body (o + 4 + length b) end rest (out ++ ((e, b) ∷ [])) w.1 d5
        (omega arith) (omega arith) in
    rw (lt→ltb o end (omega arith), id, len, s) (more ∙ ap ok (append_assoc out ((e, b) ∷ []) rest))

abbrev pub is_padding : Extension → Bool
is_padding (e, b) = e == padding_ext

pub strip_from-encode :
    (fuel : ℕ) (items : List Extension)
    → All Fits items
    → length (encode items) ≤ fuel
    → strip_from fuel (encode items) ≡ encode (filter (λ x. not (is_padding x)) items)
unfolding strip_from encode
strip_from-encode zero [] w h = refl
strip_from-encode zero ((e, b) ∷ rest) w h = absurd (omega arith)
strip_from-encode (suc fuel) [] w h = refl
strip_from-encode (suc fuel) ((e, b) ∷ rest) w h =
    let more = strip_from-encode fuel rest w.1 (omega (arith, length-encode_cons e b rest)) in
    rw (be16_value (length b), be16_value e, take-append, drop-append, more)
      (elim (Bool-cases (e == padding_ext)) [ inl p ↦ rw p refl | inr p ↦ rw p refl ])

pub ext_bytes_wo_padding-encode :
    (items : List Extension)
    → All Fits items
    → ext_bytes_wo_padding (encode items) ≡ encode (filter (λ x. not (is_padding x)) items)
unfolding ext_bytes_wo_padding
ext_bytes_wo_padding-encode items w = strip_from-encode _ items w (omega arith)
