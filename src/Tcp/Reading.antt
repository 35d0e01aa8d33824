-- ===== src/Tcp/Reading.antt =====
-- Proofs about the readers of oracle/ja4t.py: options as a packet writes them, and the loops.
use browserfp.Prelude.{
  ℕ, zero, suc, ◌+◌, ◌-◌, ◌≡◌, ◌<◌, ◌≢◌, ◌⊎◌, inl, inr, refl, ap, ◌∙◌, false, ◌||◌, List, [], ◌∷◌,
  ◌++◌, length, append_assoc, length-append, length-drop, drop, take, take-append, drop-append, All,
  ltb, ◌==◌, if◌then◌else◌, ok, Option, some, ◌&&◌, ◌/◌, ◌%◌, ◌*◌, ◌>>=◌, arith,
}
use browserfp.Prelude.Ends.{Ends, Ends-ok, Ends-err, Ends-if, Ends-bind, ends_rules}
use browserfp.Bytes.{slice, first_word, byte_at}
use browserfp.Bytes.Range.{byte_at-Ends, reads_end}
use browserfp.Tcp.Options.{TcpOption, options_from, parse_tcp_options}
use browserfp.Tcp.Syn.{sizes_from, parse_tcp, syn_at, parse_syn, from_syn, offsets_of}

-- An option as a packet writes it: a NOP is one byte, any other has its length behind its kind.
abbrev pub encode_option : TcpOption → List ℕ
encode_option (kind, val) = if kind == 1 then 1 ∷ [] else kind ∷ (length val + 2) ∷ val

abbrev pub encode_options : List TcpOption → List ℕ
encode_options [] = []
encode_options (o ∷ os) = encode_option o ++ encode_options os

-- A NOP with no value, or an option of another kind that is not the end of the list.
abbrev pub IsOption : TcpOption → Type 0
IsOption (kind, val) = ((kind ≡ 1) × (val ≡ [])) ⊎ ((kind ≢ 0) × (kind ≢ 1))

-- What may follow the options: nothing, or the end of the list and anything.
abbrev pub IsTail : List ℕ → Type 0
IsTail [] = Unit
IsTail (b ∷ bs) = b ≡ 0

options_from-tail : (fuel : ℕ) (tail : List ℕ) → IsTail tail → options_from (suc fuel) tail ≡ ok []
unfolding options_from
options_from-tail fuel [] t = refl
options_from-tail fuel (b ∷ []) t = rw t refl
options_from-tail fuel (b ∷ c ∷ bs) t = rw t refl

nop_step :
    (fuel : ℕ) (raw : List ℕ)
    → options_from (suc fuel) (1 ∷ raw) ≡ (options_from fuel raw >>= λ rest. ok ((1, []) ∷ rest))
unfolding options_from
nop_step fuel [] = refl
nop_step fuel (b ∷ bs) = refl

drop-encoded :
    (kind : ℕ) (val more : List ℕ)
    → drop (length val + 2) (kind ∷ (length val + 2) ∷ val ++ more) ≡ more
drop-encoded kind val more =
    ap (λ n. drop n (kind ∷ (length val + 2) ∷ val ++ more)) (two_more (length val))
    ∙ drop-append val more
  where
    two_more : (n : ℕ) → n + 2 ≡ suc (suc n)
    two_more n = omega arith

slice-encoded :
    (kind : ℕ) (val more : List ℕ)
    → slice (kind ∷ (length val + 2) ∷ val ++ more) 2 (length val + 2) ≡ val
unfolding slice
slice-encoded kind val more =
    ap (λ n. take n (val ++ more)) (less_two (length val)) ∙ take-append val more
  where
    less_two : (n : ℕ) → n + 2 - 2 ≡ n
    less_two n = omega arith

other_step :
    (fuel kind : ℕ) (val more : List ℕ)
    → kind ≢ 0
    → kind ≢ 1
    → options_from (suc fuel) (kind ∷ (length val + 2) ∷ val ++ more)
      ≡ (options_from fuel more >>= λ rest. ok ((kind, val) ∷ rest))
unfolding options_from
other_step fuel kind val more n0 n1 =
    let k0 : (kind == 0) ≡ false = ground arith in
    let k1 : (kind == 1) ≡ false = ground arith in
    let fits : (ltb (length val + 2) 2 || ltb (suc (suc (length (val ++ more)))) (length val + 2))
        ≡ false =
      ground (arith, length-append val more) in
    rw (k0, k1, fits, drop-encoded kind val more, slice-encoded kind val more) refl

spelled_nop :
    (kind : ℕ) (val : List ℕ) (os : List TcpOption) (tail : List ℕ)
    → kind ≡ 1
    → encode_options ((kind, val) ∷ os) ++ tail ≡ 1 ∷ encode_options os ++ tail
spelled_nop kind val os tail k = rw k refl

spelled_other :
    (kind : ℕ) (val : List ℕ) (os : List TcpOption) (tail : List ℕ)
    → kind ≢ 1
    → encode_options ((kind, val) ∷ os) ++ tail
      ≡ kind ∷ (length val + 2) ∷ val ++ (encode_options os ++ tail)
spelled_other kind val os tail n1 =
    let k1 : (kind == 1) ≡ false = ground arith in
    rw k1 (ap (λ r. kind ∷ (length val + 2) ∷ r) (append_assoc val (encode_options os) tail))

options_from-encode :
    (fuel : ℕ) (os : List TcpOption) (tail : List ℕ)
    → length (encode_options os ++ tail) < fuel
    → All IsOption os
    → IsTail tail
    → options_from fuel (encode_options os ++ tail) ≡ ok os
unfolding options_from
options_from-encode zero os tail h w t = absurd (omega arith)
options_from-encode (suc fuel) [] tail h w t = options_from-tail fuel tail t
options_from-encode (suc fuel) ((kind, val) ∷ os) tail h (inl (k, v), w) t =
    let e = spelled_nop kind val os tail k in
    let n = ap length e in
    rw (e, k, v)
      (nop_step fuel (encode_options os ++ tail)
        ∙ ap (λ m. m >>= λ rest. ok ((1, []) ∷ rest))
            (options_from-encode fuel os tail (omega (arith, n)) w t))
options_from-encode (suc fuel) ((kind, val) ∷ os) tail h (inr (n0, n1), w) t =
    let e = spelled_other kind val os tail n1 in
    let n = ap length e in
    let l = length-append val (encode_options os ++ tail) in
    rw e (
      other_step fuel kind val (encode_options os ++ tail) n0 n1
      ∙ ap (λ m. m >>= λ rest. ok ((kind, val) ∷ rest))
          (options_from-encode fuel os tail (omega (arith, n, l)) w t))

-- With options of any kinds, written as a packet writes them and followed by nothing or by an end of
-- the list and anything, the parser returns the options, in their order and with their values.
pub parse_tcp_options-encode :
    (os : List TcpOption) (tail : List ℕ)
    → All IsOption os
    → IsTail tail
    → parse_tcp_options (encode_options os ++ tail) ≡ ok os
unfolding parse_tcp_options
parse_tcp_options-encode os tail w t =
    options_from-encode (suc (length (encode_options os ++ tail))) os tail (omega arith) w t

options_from-Ends : (fuel : ℕ) (raw : List ℕ) → length raw < fuel → Ends (options_from fuel raw)
unfolding options_from
options_from-Ends zero raw h = absurd (omega arith)
options_from-Ends (suc fuel) [] h = Ends-ok []
options_from-Ends (suc fuel) (kind ∷ []) h =
    let next = options_from-Ends fuel [] (omega arith) in search (ends_rules, next) depth 10
options_from-Ends (suc fuel) (kind ∷ len ∷ more) h =
    let next = options_from-Ends fuel (len ∷ more) (omega arith) in
    Ends-if (kind == 0) _ _ (λ _. Ends-ok [])
      λ _.
        Ends-if (kind == 1) _ _ (λ _. Ends-bind _ _ next (λ r _. Ends-ok _))
          λ _.
            Ends-if (ltb len 2 || ltb (length (kind ∷ len ∷ more)) len) _ _ (λ _. Ends-ok [])
              λ b.
                Ends-bind _ _
                  (options_from-Ends fuel (drop len (kind ∷ len ∷ more))
                    (ground (arith, b, length-drop len (kind ∷ len ∷ more))))
                  (λ r _. Ends-ok _)

parse_tcp_options-Ends : (raw : List ℕ) → Ends (parse_tcp_options raw)
unfolding parse_tcp_options
parse_tcp_options-Ends raw = options_from-Ends (suc (length raw)) raw (omega arith)

first_word-Ends : (b : List ℕ) → Ends (first_word b)
first_word-Ends [] = Ends-err _
first_word-Ends (x ∷ []) = Ends-err _
first_word-Ends (x ∷ y ∷ bs) = Ends-ok _

sizes_from-Ends : (mss wscale : Option ℕ) (os : List TcpOption) → Ends (sizes_from mss wscale os)
unfolding sizes_from
sizes_from-Ends mss wscale [] = Ends-ok _
sizes_from-Ends mss wscale ((kind, val) ∷ os) =
    Ends-if (kind == 2 && length val == 2) _ _
      (λ _.
        Ends-bind (first_word val) _ (first_word-Ends val)
          (λ w _. sizes_from-Ends (some w) wscale os))
      λ _.
        Ends-if (kind == 3 && length val == 1) _ _
          (λ _.
            Ends-bind (byte_at val 0) _ (byte_at-Ends val 0)
              (λ b _. sizes_from-Ends mss (some b) os))
          (λ _. sizes_from-Ends mss wscale os)

parse_tcp-Ends : (packet : List ℕ) (o : ℕ) → Ends (parse_tcp packet o)
unfolding parse_tcp
parse_tcp-Ends packet o = search (reads_end, parse_tcp_options-Ends, sizes_from-Ends) depth 20

syn_at-Ends : (packet offsets : List ℕ) → Ends (syn_at packet offsets)
unfolding syn_at
syn_at-Ends packet [] = Ends-err _
syn_at-Ends packet (off ∷ offsets) =
    let next = syn_at-Ends packet offsets in
    let tcp = parse_tcp-Ends packet in
    Ends-if (ltb (length packet) (off + 20)) _ _ (λ _. next)
      λ _. Ends-bind (byte_at packet off) _ (byte_at-Ends packet off) λ b _.
        Ends-bind (byte_at packet (off + 9)) _ (byte_at-Ends packet (off + 9)) λ proto4 _.
          Ends-bind (byte_at packet (off + 6)) _ (byte_at-Ends packet (off + 6)) λ proto6 _.
            Ends-if (b / 16 == 4) _ _
              (λ _. Ends-if (proto4 == 6) _ _ (λ _. tcp (off + b % 16 * 4)) (λ _. next))
              λ _.
                Ends-if (b / 16 == 6) _ _
                  (λ _. Ends-if (proto6 == 6) _ _ (λ _. tcp (off + 40)) (λ _. next)) (λ _. next)

-- Of any packet, with or without an offset given, `from_syn` makes a JA4T or raises: it does not go on
-- for ever.
pub from_syn-Ends : (packet : List ℕ) (link_offset : Option ℕ) → Ends (from_syn packet link_offset)
unfolding from_syn parse_syn
from_syn-Ends packet link_offset =
    Ends-bind _ _ (syn_at-Ends packet (offsets_of link_offset)) (λ s _. Ends-ok _)
