-- ===== src/Tls/Stream.antt =====
-- `_recv_exact` and `_read_record` of oracle/tls13.py.
use browserfp.Prelude.{
  ℕ, suc, ◌+◌, ◌≡◌, List, [], ◌∷◌, ◌++◌, length, take, drop, ltb, if◌then◌else◌, Result, ok, err,
  connection_closed,
}
use browserfp.Prelude
use browserfp.Bytes.{byte_at, u16_at}
use browserfp.Tls.Client.{Client, Run, ◌>>=◌, lift, here}

-- The loop: an empty answer of `recv` says that the peer has closed. The bytes asked for, those left
-- over, and the answers that `recv` has still to give.
unfoldable pub recv_from : List (List ℕ) → List ℕ → ℕ → Result (List ℕ × List ℕ × List (List ℕ))
recv_from [] inbuf n =
    if ltb (length inbuf) n then err connection_closed else ok (take n inbuf, drop n inbuf, [])
recv_from ([] ∷ chunks) inbuf n =
    if ltb (length inbuf) n
    then err connection_closed
    else ok (take n inbuf, drop n inbuf, [] ∷ chunks)
recv_from ((b ∷ bs) ∷ chunks) inbuf n =
    let more = recv_from chunks (inbuf ++ (b ∷ bs)) n in
    if ltb (length inbuf) n then more else ok (take n inbuf, drop n inbuf, (b ∷ bs) ∷ chunks)

unfoldable pub recv_exact : ℕ → Run (List ℕ)
unfolding recv_from
recv_exact n c =
    Prelude.◌>>=◌ (recv_from c.incoming c.inbuf n)
      λ r. ok (r.0, record c { inbuf = r.1; incoming = r.2 })

-- The content type, the header and the body.
unfoldable pub read_record : Run (ℕ × List ℕ × List ℕ)
unfolding recv_exact
read_record = do
  head ← recv_exact 5
  size ← lift (u16_at head 3)
  ctype ← lift (byte_at head 0)
  body ← recv_exact size
  here (λ c. (ctype, head, body))

-- What is still to come before the peer closes, whatever the pieces that `recv` will return.
abbrev pub joined : List (List ℕ) → List ℕ
joined [] = []
joined ([] ∷ cs) = []
joined ((b ∷ bs) ∷ cs) = (b ∷ bs) ++ joined cs

abbrev pub stream : Client → List ℕ
stream c = c.inbuf ++ joined c.incoming

-- A record takes five bytes at least, so a loop over records has no more rounds than this.
abbrev pub rounds : Client → ℕ
rounds c = suc (length (stream c))
