-- ===== src/Tls/Delivery.antt =====
-- `send` of oracle/tls13.py on one side and `read` on the other: a record on its way.
use browserfp.Prelude.{
  ℕ, zero, suc, ◌+◌, ◌<◌, ◌≡◌, ◌≢◌, refl, ap, ◌∙◌, subst, List, [], ◌∷◌, ◌++◌, length,
  length-append, replicate, take, drop, take-append, drop-append, none, some, ok, arith, lt→ltb,
  le→ltb, le→leb,
}
use browserfp.Bytes.{be16, pack16, u16_at, byte_at}
use browserfp.Bytes.Cursor.{u16_at-drop}
use browserfp.Quic.Initial.{to_bytes, xor_bytes}
use browserfp.Tls.Library.{Library, IsSound}
use browserfp.Tls.Schedule.{Keys, next_nonce}
use browserfp.Tls.Client.{Client}
use browserfp.Tls.Stream.{recv_from, recv_exact, read_record}
use browserfp.Tls.Record.{split_type, decrypt_record, send_encrypted, send, read_loop, read}

zeros_only : (n : ℕ) → split_type (replicate n 0) ≡ none
unfolding split_type
zeros_only zero = refl
zeros_only (suc n) = rw (zeros_only n)

-- Whatever the padding, the content type that ends the plain text of a record and what comes before it
-- are read off it whole. The content type is not 0.
pub split_type-padded :
    (sent : List ℕ) (t n : ℕ) → t ≢ 0 → split_type (sent ++ (t ∷ replicate n 0)) ≡ some (t, sent)
unfolding split_type
split_type-padded [] t n h = rw (zeros_only n) (ground arith)
split_type-padded (b ∷ sent) t n h = rw (split_type-padded sent t n h)

pack16-lt : (v : ℕ) → v < 65536 → pack16 v ≡ ok (be16 v)
unfolding pack16
pack16-lt v h = rw (lt→ltb v 65536 h)

-- `nonce` where it does not raise.
nonce_of : Keys → List ℕ
nonce_of k = take 4 k.iv ++ xor_bytes (drop 4 k.iv) (to_bytes 8 k.seq)

next_nonce-lt :
    (k : Keys)
    → k.seq < 0x1_0000_0000_0000_0000
    → next_nonce k ≡ ok (nonce_of k, record k { seq = suc k.seq })
unfolding next_nonce nonce_of
next_nonce-lt k h = rw (lt→ltb _ _ h)

-- The header of a record of application data, whose body has `n` bytes.
header : ℕ → List ℕ
header n = 0x17 ∷ 0x03 ∷ 0x03 ∷ be16 n

header-size : (n : ℕ) → n < 65536 → u16_at (header n) 3 ≡ ok n
unfolding header
header-size n h = u16_at-drop _ 3 _ _ [] refl ∙ ap ok (omega arith)

take_all : (xs ys : List ℕ) → recv_from [] (xs ++ ys) (length xs) ≡ ok (xs, ys, [])
unfolding recv_from
take_all xs ys = rw (
  le→ltb (length (xs ++ ys)) (length xs) (omega (arith, length-append xs ys)),
  take-append xs ys,
  drop-append xs ys,
)

recv_exact-append :
    (d : Client) (xs ys : List ℕ)
    → recv_exact (length xs) (record d { inbuf = xs ++ ys; incoming = [] })
      ≡ ok (xs, record d { inbuf = ys; incoming = [] })
unfolding recv_exact
recv_exact-append d xs ys = rw (take_all xs ys)

read_record-header :
    (d : Client) (body rest : List ℕ)
    → length body < 65536
    → read_record (record d { inbuf = header (length body) ++ (body ++ rest); incoming = [] })
      ≡ ok ((0x17, header (length body), body), record d { inbuf = rest; incoming = [] })
unfolding read_record header byte_at
read_record-header d body rest h = rw (
  recv_exact-append d (header (length body)) (body ++ rest),
  header-size (length body) h,
  recv_exact-append d body rest,
)

read_record-sized :
    (d : Client) (body rest : List ℕ) (n : ℕ)
    → length body ≡ n
    → n < 65536
    → read_record (record d { inbuf = header n ++ (body ++ rest); incoming = [] })
      ≡ ok ((0x17, header n, body), record d { inbuf = rest; incoming = [] })
read_record-sized d body rest n e h =
    subst
      (λ m.
        read_record (record d { inbuf = header m ++ (body ++ rest); incoming = [] })
        ≡ ok ((0x17, header m, body), record d { inbuf = rest; incoming = [] }))
      e (read_record-header d body rest (omega arith))

-- The keys after one record.
abbrev pub advanced : Keys → Keys
advanced k = record k { seq = suc k.seq }

module _ (lib : Library) where
  sealed_text : Keys → List ℕ → ℕ → List ℕ
  sealed_text k sent t =
      lib.seal k.aead k.key (nonce_of k) (sent ++ (t ∷ []))
        (header (length (sent ++ (t ∷ [])) + 16))

  -- The record that carries `sent` under these keys, of the content type `t`.
  unfoldable wire : Keys → List ℕ → ℕ → List ℕ
  wire k sent t = header (length (sent ++ (t ∷ [])) + 16) ++ sealed_text k sent t

  size_fits :
      (sent : List ℕ) (t : ℕ) → length sent + 17 < 65536 → length (sent ++ (t ∷ [])) + 16 < 65536
  size_fits sent t h = omega (arith, length-append sent (t ∷ []))

  send_encrypted-wire :
      (sent : List ℕ) (t : ℕ) (c : Client) (k : Keys)
      → c.tx ≡ some k
      → k.seq < 0x1_0000_0000_0000_0000
      → length sent + 17 < 65536
      → send_encrypted lib sent t c
        ≡ ok
            (tt, record c { outgoing = c.outgoing ++ (wire k sent t ∷ []); tx = some (advanced k) })
  unfolding send_encrypted wire sealed_text header
  send_encrypted-wire sent t c k hk hs hl =
      rw (pack16-lt _ (size_fits sent t hl), hk, next_nonce-lt k hs)

  module _ (sound : IsSound lib) where
    decrypt_record-sealed :
        (sent : List ℕ) (t : ℕ) (d : Client) (k : Keys)
        → t ≢ 0
        → d.rx ≡ some k
        → k.seq < 0x1_0000_0000_0000_0000
        → decrypt_record lib (header (length (sent ++ (t ∷ [])) + 16)) (sealed_text k sent t) d
          ≡ ok ((t, sent), record d { rx = some (advanced k) })
    unfolding decrypt_record sealed_text
    decrypt_record-sealed sent t d k ht hk hs = rw (
      hk,
      next_nonce-lt k hs,
      sound.open-seal k.aead k.key (nonce_of k) (sent ++ (t ∷ [])) _,
      split_type-padded sent t 0 ht,
    )

    length-sealed_text :
        (k : Keys) (sent : List ℕ) (t : ℕ)
        → length (sealed_text k sent t) ≡ length (sent ++ (t ∷ [])) + 16
    unfolding sealed_text
    length-sealed_text k sent t = sound.length-seal k.aead k.key (nonce_of k) (sent ++ (t ∷ [])) _

    read_record-wire :
        (sent : List ℕ) (t : ℕ) (d : Client) (k : Keys) (rest : List ℕ)
        → length sent + 17 < 65536
        → read_record (record d { inbuf = wire k sent t ++ rest; incoming = [] })
          ≡ ok (
            (0x17, header (length (sent ++ (t ∷ [])) + 16), sealed_text k sent t),
            record d { inbuf = rest; incoming = [] },
          )
    unfolding wire header sealed_text
    read_record-wire sent t d k rest hl =
        read_record-sized d (sealed_text k sent t) rest _ (length-sealed_text k sent t)
          (size_fits sent t hl)

    -- What `send` writes, `read` returns: a peer that reads with the keys that this client writes with,
    -- that holds no plain text and has the record of a text of 1 to 65,518 bytes next in its buffer, gets
    -- that text, leaves the bytes behind the record alone, and has its keys in step with the sender's
    -- again. The sequence number must be below 2^64, and the AEAD opens what it sealed.
    pub read-send :
        (sent rest : List ℕ) (c d : Client) (k : Keys)
        → 0 < length sent
        → length sent + 17 < 65536
        → c.tx ≡ some k
        → d.rx ≡ some k
        → k.seq < 0x1_0000_0000_0000_0000
        → d.plainbuf ≡ []
        → (w : List ℕ) × (send lib sent c
            ≡ ok (
              length sent,
              record c { outgoing = c.outgoing ++ (w ∷ []); tx = some (advanced k) },
            ))
          × (read lib (record d { inbuf = w ++ rest; incoming = [] })
              ≡ ok (
                sent,
                record d { inbuf = rest; incoming = []; rx = some (advanced k); plainbuf = [] },
              ))
    unfolding send read read_loop
    read-send sent rest c d k h0 hl hc hd hs hp = (
      wire k sent 0x17,
      rw (send_encrypted-wire sent 0x17 c k hc hs hl),
      rw hp (
          rw (
            read_record-wire sent 0x17 (record d { plainbuf = [] }) k rest hl,
            decrypt_record-sealed sent 0x17
                (record d { inbuf = rest; incoming = []; plainbuf = [] }) k (λ e. cc) hd hs,
            le→leb 1 (length sent) h0,
          )),
    )
