-- ===== src/Tls/Pieces.antt =====
-- Runs of oracle/tls13.py that do not depend on the pieces in which `sock.recv` returns the stream: the
-- notion, a rule for each way to build a run, and the reading of bytes and records.
use browserfp.Prelude.{
  ℕ, zero, suc, ◌+◌, ◌≤◌, ◌≡◌, refl, sym, ap, ◌∙◌, subst, Bool, true, false, List, [], ◌∷◌, ◌++◌,
  append-nil, append_assoc, length, take, drop, ltb, if◌then◌else◌, Bool-cases, inl, inr, Option,
  none, some, maybe, Result, ok, err, stuck, arith, length-append, Error, raise_if,
  connection_closed, le→ltb,
}
use browserfp.Prelude
use browserfp.Tls.Client.{Client, Run, ◌>>=◌, ◌>>◌, lift, here, update, set_already, drawing}
use browserfp.Builder.Draw.{Draw}
use browserfp.Tls.Stream.{recv_from, recv_exact, read_record, joined, stream, rounds}

-- The same client with all of the stream in its buffer.
abbrev pub whole : Client → Client
whole c = record c { inbuf = stream c; incoming = [] }

-- What a run has come to, with the rest of the stream in the buffer.
abbrev pub settled {ℓ} : {A : Type ℓ} → Result (A × Client) → Result (A × Client)
settled stuck = stuck
settled (err e) = err e
settled (ok (a, c)) = ok (a, whole c)

pub record IsSteady {ℓ} {A : Type ℓ} (m : Run A) : Type ℓ where
  pub steady : (c : Client) → m (whole c) ≡ settled (m c)

stream-whole : (c : Client) → stream (whole c) ≡ stream c
stream-whole c = append-nil (stream c)

whole-whole : (c : Client) → whole (whole c) ≡ whole c
whole-whole c = ap (λ t. record c { inbuf = t; incoming = [] }) (stream-whole c)

module _ {ℓ κ} {A : Type ℓ} {B : Type κ} where
  settle_bind :
      (r : Result (A × Client)) (f : A → Run B)
      → ((a : A) → IsSteady (f a))
      → Prelude.◌>>=◌ (settled r) (λ p. f p.0 p.1) ≡ settled (Prelude.◌>>=◌ r (λ p. f p.0 p.1))
  settle_bind stuck f h = refl
  settle_bind (err e) f h = refl
  settle_bind (ok (a, c)) f h = (h a).steady c

  pub bind-IsSteady :
      (m : Run A) (f : A → Run B) → IsSteady m → ((a : A) → IsSteady (f a)) → IsSteady (m >>= f)
  bind-IsSteady m f hm hf = record {
    steady = λ c. ap (λ r. Prelude.◌>>=◌ r (λ p. f p.0 p.1)) (hm.steady c) ∙ settle_bind (m c) f hf;
  }

pub then-IsSteady {κ} :
    {B : Type κ} (m : Run (Unit {0})) (k : Run B) → IsSteady m → IsSteady k → IsSteady (m >> k)
then-IsSteady m k hm hk = bind-IsSteady m (λ done. k) hm (λ done. hk)

module _ {ℓ} {A : Type ℓ} where
  pub if-IsSteady :
      (b : Bool) (m k : Run A) → IsSteady m → IsSteady k → IsSteady (if b then m else k)
  if-IsSteady true m k hm hk = hm
  if-IsSteady false m k hm hk = hk

  lift-settled : (r : Result A) (c : Client) → lift r (whole c) ≡ settled (lift r c)
  lift-settled stuck c = refl
  lift-settled (err e) c = refl
  lift-settled (ok a) c = refl

  pub lift-IsSteady : (r : Result A) → IsSteady (lift r)
  lift-IsSteady r = record { steady = lift-settled r }

  pub here-IsSteady : (f : Client → A) → ((c : Client) → f (whole c) ≡ f c) → IsSteady (here f)
  here-IsSteady f h = record { steady = λ c. ap (λ a. ok (a, whole c)) (h c) }

  set_already-settled :
      (o : Option A) (c : Client)
      → set_already (λ d. o) (whole c) ≡ settled (set_already (λ d. o) c)
  set_already-settled none c = refl
  set_already-settled (some a) c = refl

  pub set_already-IsSteady :
      (f : Client → Option A) → ((c : Client) → f (whole c) ≡ f c) → IsSteady (set_already f)
  set_already-IsSteady f h = record {
    steady = λ c. ap (λ o. set_already (λ d. o) (whole c)) (h c) ∙ set_already-settled (f c) c;
  }

  drawing-settled :
      (r : Result (A × ℕ)) (c : Client) → drawing (λ n. r) (whole c) ≡ settled (drawing (λ n. r) c)
  drawing-settled stuck c = refl
  drawing-settled (err e) c = refl
  drawing-settled (ok p) c = refl

  pub drawing-IsSteady : (d : Draw A) → IsSteady (drawing d)
  drawing-IsSteady d = record { steady = λ c. drawing-settled (d c.draws) c }

pub update-IsSteady :
    (f : Client → Client) → ((c : Client) → f (whole c) ≡ whole (f c)) → IsSteady (update f)
update-IsSteady f h = record { steady = λ c. ap (λ d. ok (tt, d)) (h c) }

pub rounds-IsSteady : IsSteady (here rounds)
rounds-IsSteady = here-IsSteady rounds (λ c. ap (λ t. suc (length t)) (stream-whole c))

-- Bytes: all that is left over, and nothing more to come.
abbrev pub merged :
    Result (List ℕ × List ℕ × List (List ℕ)) → Result (List ℕ × List ℕ × List (List ℕ))
merged stuck = stuck
merged (err e) = err e
merged (ok (a, left, chunks)) = ok (a, left ++ joined chunks, [])

take_more : (n : ℕ) (xs ys : List ℕ) → n ≤ length xs → take n (xs ++ ys) ≡ take n xs
take_more zero xs ys h = refl
take_more (suc n) [] ys h = absurd (omega arith)
take_more (suc n) (x ∷ xs) ys h = ap (λ t. x ∷ t) (take_more n xs ys (omega arith))

drop_more : (n : ℕ) (xs ys : List ℕ) → n ≤ length xs → drop n (xs ++ ys) ≡ drop n xs ++ ys
drop_more zero xs ys h = refl
drop_more (suc n) [] ys h = absurd (omega arith)
drop_more (suc n) (x ∷ xs) ys h = drop_more n xs ys (omega arith)

enough :
    (n : ℕ) (xs ys : List ℕ)
    → n ≤ length xs
    → recv_from [] (xs ++ ys) n ≡ ok (take n xs, drop n xs ++ ys, [])
unfolding recv_from
enough n xs ys h = rw (
  le→ltb (length (xs ++ ys)) n (omega (arith, length-append xs ys)),
  take_more n xs ys h,
  drop_more n xs ys h,
)

pub recv_from-merged :
    (chunks : List (List ℕ)) (inbuf : List ℕ) (n : ℕ)
    → recv_from [] (inbuf ++ joined chunks) n ≡ merged (recv_from chunks inbuf n)
unfolding recv_from
recv_from-merged [] inbuf n = elim (Bool-cases (ltb (length inbuf) n)) [
  | inl e ↦ rw (append-nil inbuf, e)
  | inr e ↦ rw (append-nil inbuf, e, append-nil (drop n inbuf))
]
recv_from-merged ([] ∷ chunks) inbuf n = elim (Bool-cases (ltb (length inbuf) n)) [
  | inl e ↦ rw (append-nil inbuf, e)
  | inr e ↦ rw (append-nil inbuf, e, append-nil (drop n inbuf))
]
recv_from-merged ((b ∷ bs) ∷ chunks) inbuf n = elim (Bool-cases (ltb (length inbuf) n)) [
  | inl e ↦ rw e (
      ap (λ t. recv_from [] t n) (sym (append_assoc inbuf (b ∷ bs) (joined chunks)))
      ∙ recv_from-merged chunks (inbuf ++ (b ∷ bs)) n)
  | inr e ↦ rw e (enough n inbuf _ (ground arith))
]

left_merged :
    (r : Result (List ℕ × List ℕ × List (List ℕ))) (c : Client)
    → Prelude.◌>>=◌ (merged r) (λ t. ok (t.0, record (whole c) { inbuf = t.1; incoming = t.2 }))
      ≡ settled (Prelude.◌>>=◌ r (λ t. ok (t.0, record c { inbuf = t.1; incoming = t.2 })))
left_merged stuck c = refl
left_merged (err e) c = refl
left_merged (ok (a, left, chunks)) c = refl

pub recv_exact-IsSteady : (n : ℕ) → IsSteady (recv_exact n)
unfolding recv_exact
recv_exact-IsSteady n = record {
  steady = λ c.
      ap (λ r. Prelude.◌>>=◌ r (λ t. ok (t.0, record (whole c) { inbuf = t.1; incoming = t.2 })))
        (recv_from-merged c.incoming c.inbuf n)
      ∙ left_merged (recv_from c.incoming c.inbuf n) c;
}

pub ruleset steady = (
  bind-IsSteady, then-IsSteady, if-IsSteady, lift-IsSteady, here-IsSteady, set_already-IsSteady,
  drawing-IsSteady, update-IsSteady, rounds-IsSteady, recv_exact-IsSteady,
)

pub read_record-IsSteady : IsSteady read_record
unfolding read_record
read_record-IsSteady = search steady
