-- ===== src/Quic/Whole.antt =====
-- Proofs about `reassemble_client_hello` of oracle/quic.py on the parts of one message.
use browserfp.Prelude.{
  ℕ, zero, suc, ◌+◌, ◌*◌, ◌≡◌, ◌≤◌, refl, sym, ap, ap₂, ◌∙◌, Bool, true, false, not, List, [], ◌∷◌,
  ◌++◌, length, replicate, take, drop, All, ltb, ok, raise_if, length-replicate, Error, ok_bind,
  ok-injective, arith, no_crypto_frame, crypto_gap, not_a_hello, too_few_bytes, hello_incomplete,
}
use browserfp.Bytes.{u24_at, byte_at, pack16, be16}
use browserfp.Quic.Frames.{Chunk}
use browserfp.Quic.Reassemble.{
  total_of, overwrite, collect, all_seen, starts_with_hello, is_empty, framed,
  reassemble_client_hello,
}

-- A chunk of a message: what the message has at that offset.
abbrev pub IsPart : List ℕ → Chunk → Type 0
IsPart m (off, part) = take (length part) (drop off m) ≡ part

-- Every byte that is marked is the message's.
abbrev Agrees : List ℕ → List ℕ → List Bool → Type 0
Agrees m [] [] = Unit
Agrees m [] (s ∷ ss) = ⊥
Agrees m (b ∷ bs) [] = ⊥
Agrees [] (b ∷ bs) (s ∷ ss) = (s ≡ false) × Agrees [] bs ss
Agrees (x ∷ m) (b ∷ bs) (s ∷ ss) = ((s ≡ true) → b ≡ x) × Agrees m bs ss

fresh-Agrees : (n : ℕ) (m : List ℕ) → Agrees m (replicate n 0) (replicate n false)
fresh-Agrees zero m = tt
fresh-Agrees (suc n) [] = (refl, fresh-Agrees n [])
fresh-Agrees (suc n) (x ∷ m) = ((λ e. cc), fresh-Agrees n m)

cons_parts : {x y : ℕ} {xs ys : List ℕ} → x ∷ xs ≡ y ∷ ys → (x ≡ y) × (xs ≡ ys)
cons_parts e = (cc, cc)

overwrite-Agrees :
    (m : List ℕ) (off : ℕ) (part buf : List ℕ) (seen : List Bool)
    → off + length part ≤ length buf
    → take (length part) (drop off m) ≡ part
    → Agrees m buf seen
    → Agrees m (overwrite off part buf) (overwrite off (replicate (length part) true) seen)
unfolding overwrite
overwrite-Agrees m off [] [] [] le eq a = tt
overwrite-Agrees m off (d ∷ ds) [] [] le eq a = absurd (omega arith)
overwrite-Agrees m off [] [] (s ∷ ss) le eq a = absurd a
overwrite-Agrees m off (d ∷ ds) [] (s ∷ ss) le eq a = absurd a
overwrite-Agrees m off part (b ∷ bs) [] le eq a = absurd a
overwrite-Agrees m zero [] (b ∷ bs) (s ∷ ss) le eq a = a
overwrite-Agrees [] zero (d ∷ ds) (b ∷ bs) (s ∷ ss) le eq a = absurd (cc)
overwrite-Agrees (x ∷ m) zero (d ∷ ds) (b ∷ bs) (s ∷ ss) le eq a =
    let (same, rest) = cons_parts eq in
    ((λ e. sym same), overwrite-Agrees m zero ds bs ss (omega arith) rest a.1)
overwrite-Agrees [] (suc off) [] (b ∷ bs) (s ∷ ss) le eq a =
    (a.0, overwrite-Agrees [] off [] bs ss (omega arith) refl a.1)
overwrite-Agrees [] (suc off) (d ∷ ds) (b ∷ bs) (s ∷ ss) le eq a = absurd (cc)
overwrite-Agrees (x ∷ m) (suc off) part (b ∷ bs) (s ∷ ss) le eq a =
    (a.0, overwrite-Agrees m off part bs ss (omega arith) eq a.1)

length-overwrite :
    (off : ℕ) (part buf : List ℕ)
    → off + length part ≤ length buf
    → length (overwrite off part buf) ≡ length buf
unfolding overwrite
length-overwrite off [] [] le = refl
length-overwrite off (d ∷ ds) [] le = absurd (omega arith)
length-overwrite zero [] (b ∷ bs) le = refl
length-overwrite zero (d ∷ ds) (b ∷ bs) le = ap suc (length-overwrite zero ds bs (omega arith))
length-overwrite (suc off) part (b ∷ bs) le = ap suc (length-overwrite off part bs (omega arith))

collect-Agrees :
    (m : List ℕ) (chunks : List Chunk) (buf : List ℕ) (seen : List Bool)
    → total_of chunks ≤ length buf
    → All (IsPart m) chunks
    → Agrees m buf seen
    → Agrees m (collect chunks buf seen).0 (collect chunks buf seen).1
unfolding collect
collect-Agrees m [] buf seen le parts a = a
collect-Agrees m ((off, part) ∷ rest) buf seen le parts a =
    let n = length-overwrite off part buf (omega arith) in
    collect-Agrees m rest (overwrite off part buf)
      (overwrite off (replicate (length part) true) seen) (omega (arith, n)) parts.1
      (overwrite-Agrees m off part buf seen (omega arith) parts.0 a)

-- With every byte marked, the bytes are the message's first ones.
agreed :
    (m buf : List ℕ) (seen : List Bool)
    → Agrees m buf seen
    → all_seen seen ≡ true
    → take (length buf) m ≡ buf
agreed m [] [] a all = refl
agreed m [] (s ∷ ss) a all = absurd a
agreed m (b ∷ bs) [] a all = absurd a
agreed m (b ∷ bs) (false ∷ ss) a all = absurd (cc)
agreed [] (b ∷ bs) (true ∷ ss) a all = absurd (let h = a.0 in cc)
agreed (x ∷ m) (b ∷ bs) (true ∷ ss) a all =
    ap₂ (λ y ys. y ∷ ys) (sym (a.0 refl)) (agreed m bs ss a.1 all)

-- A handshake message with the length that its header says.
abbrev pub IsWhole : List ℕ → Type 0
IsWhole (k ∷ x ∷ y ∷ z ∷ rest) = x * 65536 + y * 256 + z ≡ length rest
IsWhole _ = ⊥

take-all : (n : ℕ) (xs : List ℕ) → length xs ≤ n → take n xs ≡ xs
take-all zero [] h = refl
take-all zero (x ∷ xs) h = absurd (omega arith)
take-all (suc n) [] h = refl
take-all (suc n) (x ∷ xs) h = ap (λ t. x ∷ t) (take-all n xs (omega arith))

-- A start of a message that is as long as it announces is the message.
complete :
    (m buf : List ℕ) (n : ℕ)
    → IsWhole m
    → take (length buf) m ≡ buf
    → 4 ≤ length buf
    → u24_at buf 1 ≡ ok n
    → 4 + n ≤ length buf
    → buf ≡ m
unfolding u24_at byte_at
complete (k ∷ x ∷ y ∷ z ∷ rest) (b0 ∷ b1 ∷ b2 ∷ b3 ∷ t) n w e four u le =
    let (e0, r0) = cons_parts e in
    let (e1, r1) = cons_parts r0 in
    let (e2, r2) = cons_parts r1 in
    let (e3, r3) = cons_parts r2 in
    let q : b1 * 65536 + b2 * 256 + b3 ≡ n = ok-injective u in
    let size : x * 65536 + y * 256 + z ≡ length rest = w in
    let short : length rest ≤ length t = omega arith in
    sym e ∙ ap (λ r. k ∷ x ∷ y ∷ z ∷ r) (take-all (length t) rest short)
complete m [] n w e four u le = absurd (omega arith)
complete m (b0 ∷ []) n w e four u le = absurd (omega arith)
complete m (b0 ∷ b1 ∷ []) n w e four u le = absurd (omega arith)
complete m (b0 ∷ b1 ∷ b2 ∷ []) n w e four u le = absurd (omega arith)
complete [] (b0 ∷ b1 ∷ b2 ∷ b3 ∷ t) n w e four u le = absurd w
complete (k ∷ []) (b0 ∷ b1 ∷ b2 ∷ b3 ∷ t) n w e four u le = absurd w
complete (k ∷ x ∷ []) (b0 ∷ b1 ∷ b2 ∷ b3 ∷ t) n w e four u le = absurd w
complete (k ∷ x ∷ y ∷ []) (b0 ∷ b1 ∷ b2 ∷ b3 ∷ t) n w e four u le = absurd w

passed : (b : Bool) (e : Error) (u : Unit {0}) → raise_if (not b) e ≡ ok u → b ≡ true
passed true e u h = refl
passed false e u h = absurd (cc)

enough : (a b : ℕ) (e : Error) (u : Unit {0}) → raise_if (ltb a b) e ≡ ok u → b ≤ a
enough a b e u h = ground arith

packed : (n : ℕ) {out : List ℕ} → pack16 n ≡ ok out → out ≡ be16 n
unfolding pack16
packed n h = ground arith

framed-eq_ok :
    (m buf : List ℕ) (seen : List Bool) (r : List ℕ)
    → IsWhole m
    → Agrees m buf seen
    → framed buf seen ≡ ok r
    → r ≡ 0x16 ∷ 0x03 ∷ 0x01 ∷ be16 (length m) ++ m
unfolding framed
framed-eq_ok m buf seen r w a h = ok_bind (raise_if (not (all_seen seen)) crypto_gap) _ h λ _ g h1.
    ok_bind (raise_if (not (starts_with_hello buf)) not_a_hello) _ h1 λ _ _ h2.
      ok_bind (raise_if (ltb (length buf) 4) too_few_bytes) _ h2 λ _ f h3.
        ok_bind (u24_at buf 1) _ h3 λ n u h4.
          ok_bind (raise_if (ltb (length buf) (4 + n)) hello_incomplete) _ h4 λ _ l h5.
            ok_bind (pack16 (length buf)) _ h5 λ size p h6.
              let seen_all = passed (all_seen seen) crypto_gap _ g in
              let buf_is : buf ≡ m =
                complete m buf n w (agreed m buf seen a seen_all) (enough (length buf) 4 _ _ f) u
                  (enough (length buf) (4 + n) _ _ l) in
              let size_is = packed (length buf) p in
              sym (ok-injective h6)
              ∙ ap₂ (λ s b. 0x16 ∷ 0x03 ∷ 0x01 ∷ s ++ b)
                  (size_is ∙ ap (λ b. be16 (length b)) buf_is) buf_is

-- When every chunk is a part of one whole handshake message, then whatever their order, and whether
-- they overlap or repeat, a record that the reassembly returns holds that message and nothing else.
pub reassemble-whole :
    (m : List ℕ) (chunks : List Chunk) (r : List ℕ)
    → IsWhole m
    → All (IsPart m) chunks
    → reassemble_client_hello chunks ≡ ok r
    → r ≡ 0x16 ∷ 0x03 ∷ 0x01 ∷ be16 (length m) ++ m
unfolding reassemble_client_hello
reassemble-whole m chunks r w parts h =
    let total = total_of chunks in
    ok_bind (raise_if (is_empty chunks) no_crypto_frame) _ h λ _ _ h1.
      framed-eq_ok m (collect chunks (replicate total 0) (replicate total false)).0
        (collect chunks (replicate total 0) (replicate total false)).1 r w
        (collect-Agrees m chunks (replicate total 0) (replicate total false)
          (omega (arith, length-replicate {A = ℕ} total 0)) parts (fresh-Agrees total m))
        h1
