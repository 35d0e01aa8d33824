-- ===== src/Tls/Draining.antt =====
-- Loops over records in oracle/tls13.py: a record takes five bytes of the stream at least. A run ends below
-- a length if it does so for every client with less than that left to read, and leaves no more behind
-- than there was.
use browserfp.Prelude.{
  ℕ, zero, suc, ◌+◌, ◌-◌, ◌<◌, ◌≤◌, ◌≡◌, ◌≢◌, refl, ap, sym, subst, ◌∙◌, Bool, true, false, List,
  [], ◌∷◌, ◌++◌, append-nil, append_assoc, length, length-append, length-take, length-drop, take,
  drop, ltb, if◌then◌else◌, Bool-cases, inl, inr, Option, none, some, Result, Error, ok, err, stuck,
  or_raise, attribute_error, ok_bind, arith,
}
use browserfp.Prelude
use browserfp.Prelude.Ends.{Ends, Ends-ok, Ends-err, Ends-bind, Ends-if, Ends-or_raise}
use browserfp.Bytes.{byte_at, u16_at}
use browserfp.Bytes.Range.{byte_at-Ends, u16_at-Ends}
use browserfp.Builder.Draw.{Draw}
use browserfp.Builder.Ending.{IsEnding}
use browserfp.Tls.Client.{Client, Run, ◌>>=◌, ◌>>◌, lift, here, update, set_already, drawing}
use browserfp.Tls.Pieces.{merged, recv_from-merged}
use browserfp.Tls.Stream.{recv_from, recv_exact, read_record, joined, stream, rounds}

-- What is left to read, in bytes.
abbrev pub left : Client → ℕ
left c = length (stream c)

-- The run does not get stuck, and where it returns at most `n` bytes are left.
pub record Leaves {ℓ} {A : Type ℓ} (n : ℕ) (r : Result (A × Client)) : Type ℓ where
  pub ends : Ends r
  pub less : (a : A) (c : Client) → r ≡ ok (a, c) → left c ≤ n

pub record EndsBelow {ℓ} {A : Type ℓ} (n : ℕ) (m : Run A) : Type ℓ where
  pub leaves : (c : Client) → left c < n → Leaves (left c) (m c)

module _ {ℓ} {A : Type ℓ} where
  Leaves-ok : (n : ℕ) (a : A) (c : Client) → left c ≤ n → Leaves n (ok (a, c))
  Leaves-ok n a c h = record {
    ends = Ends-ok _;
    less = λ b d e. (let same : c ≡ d = cc in omega (arith, ap left same));
  }

  Leaves-err : (n : ℕ) (e : Error) → Leaves n (let r : Result (A × Client) = err e in r)
  Leaves-err n e = record { ends = Ends-err e; less = λ b d q. absurd (cc) }

  Leaves-more : (n m : ℕ) (r : Result (A × Client)) → n ≤ m → Leaves n r → Leaves m r
  Leaves-more n m r h k = record { ends = k.ends; less = λ a c e. omega (arith, k.less a c e) }

module _ {ℓ κ} {A : Type ℓ} {B : Type κ} where
  Leaves-bind :
      (n : ℕ) (r : Result (A × Client)) (f : A → Run B)
      → Leaves n r
      → ((a : A) (c : Client) → r ≡ ok (a, c) → left c ≤ n → Leaves (left c) (f a c))
      → Leaves n (Prelude.◌>>=◌ r (λ p. f p.0 p.1))
  Leaves-bind n stuck f h k = absurd (h.ends.ends refl)
  Leaves-bind n (err e) f h k = Leaves-err n e
  Leaves-bind n (ok (a, c)) f h k =
      Leaves-more (left c) n _ (h.less a c refl) (k a c refl (h.less a c refl))

  pub bind-EndsBelow :
      (n : ℕ) (m : Run A) (f : A → Run B)
      → EndsBelow n m
      → ((a : A) → EndsBelow n (f a))
      → EndsBelow n (m >>= f)
  bind-EndsBelow n m f hm hf = record {
    leaves = λ c h.
        Leaves-bind (left c) (m c) f (hm.leaves c h) (λ a d e le. (hf a).leaves d (omega arith));
  }

pub then-EndsBelow {κ} :
    {B : Type κ} (n : ℕ) (m : Run (Unit {0})) (k : Run B)
    → EndsBelow n m
    → EndsBelow n k
    → EndsBelow n (m >> k)
then-EndsBelow n m k hm hk = bind-EndsBelow n m (λ done. k) hm (λ done. hk)

module _ {ℓ} {A : Type ℓ} where
  pub if-EndsBelow :
      (n : ℕ) (b : Bool) (m k : Run A)
      → EndsBelow n m
      → EndsBelow n k
      → EndsBelow n (if b then m else k)
  if-EndsBelow n true m k hm hk = hm
  if-EndsBelow n false m k hm hk = hk

  lift-Leaves : (r : Result A) (c : Client) → Ends r → Leaves (left c) (lift r c)
  lift-Leaves stuck c h = absurd (h.ends refl)
  lift-Leaves (err e) c h = Leaves-err (left c) e
  lift-Leaves (ok a) c h = Leaves-ok (left c) a c (omega arith)

  pub lift-EndsBelow : (n : ℕ) (r : Result A) → Ends r → EndsBelow n (lift r)
  lift-EndsBelow n r h = record { leaves = λ c lt. lift-Leaves r c h }

  pub here-EndsBelow : (n : ℕ) (f : Client → A) → EndsBelow n (here f)
  here-EndsBelow n f = record { leaves = λ c lt. Leaves-ok (left c) (f c) c (omega arith) }

  pub set_already-EndsBelow : (n : ℕ) (f : Client → Option A) → EndsBelow n (set_already f)
  set_already-EndsBelow n f = record {
    leaves = λ c lt. lift-Leaves (or_raise attribute_error (f c)) c (Ends-or_raise _ (f c));
  }

  drawing-Leaves : (r : Result (A × ℕ)) (c : Client) → Ends r → Leaves (left c) (drawing (λ i. r) c)
  drawing-Leaves stuck c h = absurd (h.ends refl)
  drawing-Leaves (err e) c h = Leaves-err (left c) e
  drawing-Leaves (ok p) c h = Leaves-ok (left c) p.0 (record c { draws = p.1 }) (omega arith)

  pub drawing-EndsBelow : (n : ℕ) (d : Draw A) → IsEnding d → EndsBelow n (drawing d)
  drawing-EndsBelow n d h = record {
    leaves = λ c lt. drawing-Leaves (d c.draws) c (h.ending c.draws);
  }

  pub fewer-EndsBelow : (n : ℕ) (m : Run A) → EndsBelow (suc n) m → EndsBelow n m
  fewer-EndsBelow n m h = record { leaves = λ c lt. h.leaves c (omega arith) }

pub update-EndsBelow :
    (n : ℕ) (f : Client → Client)
    → ((c : Client) → stream (f c) ≡ stream c)
    → EndsBelow n (update f)
update-EndsBelow n f h = record {
  leaves = λ c lt. Leaves-ok (left c) tt (f c) (omega (arith, ap length (h c)));
}

-- What `recv` gives is taken off the stream.
taken_whole :
    (s : List ℕ) (n : ℕ) (r : List ℕ × List ℕ × List (List ℕ))
    → recv_from [] s n ≡ ok r
    → length r.1 + n ≡ length s
unfolding recv_from
taken_whole s n r h = elim (Bool-cases (ltb (length s) n)) [
  | inl e ↦ absurd (cc)
  | inr e ↦
      let same : drop n s ≡ r.1 = cc in
      let enough : n ≤ length s = ground arith in omega (arith, ap length same, length-drop n s)
]

recv_from-taken :
    (chunks : List (List ℕ)) (inbuf : List ℕ) (n : ℕ) (r : List ℕ × List ℕ × List (List ℕ))
    → recv_from chunks inbuf n ≡ ok r
    → length (r.1 ++ joined r.2) + n ≡ length (inbuf ++ joined chunks)
recv_from-taken chunks inbuf n r h =
    taken_whole (inbuf ++ joined chunks) n (r.0, r.1 ++ joined r.2, [])
      (recv_from-merged chunks inbuf n ∙ ap merged h)

recv_from-Ends : (chunks : List (List ℕ)) (inbuf : List ℕ) (n : ℕ) → Ends (recv_from chunks inbuf n)
unfolding recv_from
recv_from-Ends [] inbuf n = Ends-if (ltb (length inbuf) n) _ _ (λ _. Ends-err _) (λ _. Ends-ok _)
recv_from-Ends ([] ∷ chunks) inbuf n =
    Ends-if (ltb (length inbuf) n) _ _ (λ _. Ends-err _) (λ _. Ends-ok _)
recv_from-Ends ((b ∷ bs) ∷ chunks) inbuf n =
    Ends-if (ltb (length inbuf) n) _ _ (λ _. recv_from-Ends chunks (inbuf ++ (b ∷ bs)) n)
      (λ _. Ends-ok _)

recv_exact-left :
    (n : ℕ) (c d : Client) (a : List ℕ) → recv_exact n c ≡ ok (a, d) → left d + n ≡ left c
unfolding recv_exact
recv_exact-left n c d a h = ok_bind (recv_from c.incoming c.inbuf n) _ h (λ r e e'.
    let buf : r.1 ≡ d.inbuf = cc in
    let inc : r.2 ≡ d.incoming = cc in
    let taken = recv_from-taken c.incoming c.inbuf n r e in
    subst (λ t. length t + n ≡ left c)
      (ap (λ x. x ++ joined r.2) buf ∙ ap (λ y. d.inbuf ++ joined y) inc) taken)

recv_exact-EndsBelow : (k n : ℕ) → EndsBelow k (recv_exact n)
unfolding recv_exact
recv_exact-EndsBelow k n = record {
  leaves = λ c lt. record {
    ends = Ends-bind (recv_from c.incoming c.inbuf n) _ (recv_from-Ends _ _ n) (λ r e. Ends-ok _);
    less = λ a d e. omega (arith, recv_exact-left n c d a e);
  };
}

read_body-EndsBelow :
    (k : ℕ) (head : List ℕ)
    → EndsBelow {A = ℕ × List ℕ × List ℕ} k (
        lift (u16_at head 3) >>= λ size. lift (byte_at head 0) >>= λ ctype.
        recv_exact size >>= λ body. here (λ c. (ctype, head, body)))
read_body-EndsBelow k head = bind-EndsBelow k _ _ (lift-EndsBelow k _ (u16_at-Ends head 3)) (λ size.
    bind-EndsBelow k _ _ (lift-EndsBelow k _ (byte_at-Ends head 0))
      (λ ctype. bind-EndsBelow k _ _ (recv_exact-EndsBelow k size) (λ body. here-EndsBelow k _)))

read_record-EndsBelow : (k : ℕ) → EndsBelow k read_record
unfolding read_record
read_record-EndsBelow k = bind-EndsBelow k _ _ (recv_exact-EndsBelow k 5) (read_body-EndsBelow k)

-- A record takes bytes off the stream.
read_record-less :
    (c d : Client) (r : ℕ × List ℕ × List ℕ) → read_record c ≡ ok (r, d) → left d < left c
unfolding read_record
read_record-less c d r h = ok_bind (recv_exact 5 c) _ h (λ p e e'.
    let behind = (read_body-EndsBelow (suc (left p.1)) p.0).leaves p.1 (omega arith) in
    omega (arith, recv_exact-left 5 c p.1 p.0 e, behind.less r d e'))

-- The loops: one record less to come, and fuel for one less; and fuel for all that is to come.
module _ {ℓ} {A : Type ℓ} where
  pub record-EndsBelow :
      (n : ℕ) (f : ℕ × List ℕ × List ℕ → Run A)
      → ((r : ℕ × List ℕ × List ℕ) → EndsBelow n (f r))
      → EndsBelow (suc n) (read_record >>= f)
  record-EndsBelow n f hf = record {
    leaves = λ c h.
        Leaves-bind (left c) (read_record c) f ((read_record-EndsBelow (suc n)).leaves c h)
          (λ r d e le. (hf r).leaves d (omega (arith, read_record-less c d r e)));
  }

  pub rounds-EndsBelow :
      (k : ℕ) (f : ℕ → Run A) → ((n : ℕ) → EndsBelow n (f n)) → EndsBelow k (here rounds >>= f)
  rounds-EndsBelow k f hf = record { leaves = λ c h. (hf (rounds c)).leaves c (omega arith) }

  pub never-EndsBelow : (m : Run A) → EndsBelow 0 m
  never-EndsBelow m = record { leaves = λ c h. absurd (omega arith) }
