-- ===== src/Bytes/Cursor.antt =====
-- Reading in sequence: what each read returns when the bytes from its offset on are known.
use browserfp.Prelude.{
  ℕ, zero, suc, ◌+◌, ◌*◌, ◌≤◌, ◌≡◌, refl, ap, sym, ◌∙◌, List, [], ◌∷◌, ◌++◌, length, get_elem?,
  drop, drop-drop, drop-append, take-append, arith, Option, some, none, ok, All, ap₂, le→ltb,
  length-drop, length-append,
}
use browserfp.Bytes.{byte_at, slice, u16_at, u24_at, words, u16s_at, be16s, IsByte, IsWord}
use native.Mathlib.Nat.{add-sub_cancel_left}

abbrev head? : List ℕ → Option ℕ
head? [] = none
head? (x ∷ xs) = some x

get_elem?-drop : (b : List ℕ) (o : ℕ) → get_elem? b o ≡ head? (drop o b)
get_elem?-drop [] zero = refl
get_elem?-drop [] (suc o) = refl
get_elem?-drop (x ∷ b) zero = refl
get_elem?-drop (x ∷ b) (suc o) = get_elem?-drop b o

pub byte_at-drop : (b : List ℕ) (o x : ℕ) (xs : List ℕ) → drop o b ≡ x ∷ xs → byte_at b o ≡ ok x
unfolding byte_at
byte_at-drop b o x xs h = rw (get_elem?-drop, h)

pub u16_at-drop :
    (b : List ℕ) (o x y : ℕ) (xs : List ℕ) → drop o b ≡ x ∷ y ∷ xs → u16_at b o ≡ ok (x * 256 + y)
unfolding u16_at
u16_at-drop b o x y xs h = rw h

-- The offset moves past what has been read.
pub drop-next :
    (b : List ℕ) (o : ℕ) (ys xs : List ℕ) → drop o b ≡ ys ++ xs → drop (o + length ys) b ≡ xs
drop-next b o ys xs h = sym (drop-drop o (length ys) b) ∙ rw h (drop-append ys xs)

pub u24_at-drop :
    (b : List ℕ) (o x y z : ℕ) (xs : List ℕ)
    → drop o b ≡ x ∷ y ∷ z ∷ xs
    → u24_at b o ≡ ok (x * 65536 + y * 256 + z)
unfolding u24_at
u24_at-drop b o x y z xs h = rw (
  byte_at-drop b o x (y ∷ z ∷ xs) h,
  byte_at-drop b (o + 1) y (z ∷ xs) (drop-next b o (x ∷ []) (y ∷ z ∷ xs) h),
  byte_at-drop b (o + 2) z xs (drop-next b o (x ∷ y ∷ []) (z ∷ xs) h),
)

pub slice-drop :
    (b : List ℕ) (o : ℕ) (ys xs : List ℕ) → drop o b ≡ ys ++ xs → slice b o (o + length ys) ≡ ys
unfolding slice
slice-drop b o ys xs h = rw (h, add-sub_cancel_left o (length ys)) (take-append ys xs)

-- A known tail bounds the offset.
pub length-of_drop :
    (b : List ℕ) (o : ℕ) (xs : List ℕ) → drop o b ≡ xs → o ≤ length b → length b ≡ o + length xs
length-of_drop b o xs h le = omega (arith, ap length h, length-drop o b)

pub words-be16s : (vs xs : List ℕ) → All IsWord vs → words (length vs) (be16s vs ++ xs) ≡ vs
words-be16s [] xs h = refl
words-be16s (v ∷ vs) xs h = ap₂ ◌∷◌ (omega arith) (words-be16s vs xs h.1)

pub length-be16s : (vs : List ℕ) → length (be16s vs) ≡ 2 * length vs
length-be16s [] = refl
length-be16s (v ∷ vs) = omega (arith, length-be16s vs)

pub be16s-IsByte : (vs : List ℕ) → All IsWord vs → All IsByte (be16s vs)
be16s-IsByte [] h = tt
be16s-IsByte (v ∷ vs) h = (omega arith, (omega arith, be16s-IsByte vs h.1))

pub u16s_at-drop :
    (b : List ℕ) (o : ℕ) (vs xs : List ℕ)
    → All IsWord vs
    → drop o b ≡ be16s vs ++ xs
    → o ≤ length b
    → u16s_at b o (length vs) ≡ ok vs
unfolding u16s_at
u16s_at-drop b o vs xs w h le =
    let fits : o + 2 * length vs ≤ length b =
      omega (arith, length-of_drop b o _ h le, length-append (be16s vs) xs, length-be16s vs) in
    rw (le→ltb _ _ fits, h, words-be16s vs xs w)
