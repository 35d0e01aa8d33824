-- ===== src/Tls/Record.antt =====
-- `_decrypt_record`, `_send_encrypted`, `send` and `read` of oracle/tls13.py.
use browserfp.Prelude.{
  ℕ, zero, suc, ◌+◌, ◌&&◌, List, [], ◌∷◌, ◌++◌, length, leb, ◌==◌, if◌then◌else◌, Option, some,
  none, err, stuck, or_raise, invalid_tag, all_padding, peer_alert, maybe,
}
use browserfp.Bytes.{byte_at, pack16}
use browserfp.Tls.Library.{Library}
use browserfp.Tls.Schedule.{next_nonce}
use browserfp.Tls.Client.{Run, ◌>>=◌, ◌>>◌, lift, here, update, set_already, send_all}
use browserfp.Tls.Stream.{read_record, rounds}

-- The last byte that is not 0, the true content type, and what comes before it.
unfoldable pub split_type : List ℕ → Option (ℕ × List ℕ)
split_type [] = none
split_type (b ∷ bs) =
    maybe (split_type bs) (λ r. some (r.0, b ∷ r.1)) (if b == 0 then none else some (b, []))

module _ (lib : Library) where
  unfoldable pub decrypt_record : List ℕ → List ℕ → Run (ℕ × List ℕ)
  unfolding split_type
  decrypt_record head payload = do
    k ← set_already (λ c. c.rx)
    (nonce, k') ← lift (next_nonce k)
    update (λ c. record c { rx = some k' })
    plain ← lift (or_raise invalid_tag (lib.open_sealed k.aead k.key nonce payload head))
    lift (or_raise all_padding (split_type plain))

  unfoldable pub send_encrypted : List ℕ → ℕ → Run (Unit {0})
  send_encrypted sent inner_type = do
    let plain = sent ++ (inner_type ∷ [])
    size ← lift (pack16 (length plain + 16))
    let head = 0x17 ∷ 0x03 ∷ 0x03 ∷ size
    k ← set_already (λ c. c.tx)
    (nonce, k') ← lift (next_nonce k)
    update (λ c. record c { tx = some k' })
    send_all (head ++ lib.seal k.aead k.key nonce plain head)

  unfoldable pub send : List ℕ → Run ℕ
  unfolding send_encrypted
  send sent = do send_encrypted sent 0x17; here (λ c. length sent)

  -- `close_notify` ends the stream; any other alert raises.
  unfoldable pub alert : List ℕ → Run (List ℕ)
  alert plain =
      if leb 2 (length plain) && second plain == 0
      then here (λ c. [])
      else do _ ← lift (byte_at plain 0); _ ← lift (byte_at plain 1); lift (err peer_alert)
    where
      second : List ℕ → ℕ
      second (x ∷ y ∷ more) = y
      second _ = 1

  -- What the plain text of a record means for `read`: more to read, or the answer.
  unfoldable pub read_loop : ℕ → Run (List ℕ)
  unfolding decrypt_record alert
  read_loop zero = lift stuck
  read_loop (suc fuel) = do
    held ← here (λ c. c.plainbuf)
    let again = read_loop fuel
    let next = (do
      (ctype, head, payload) ← read_record
      (if ctype == 0x14 then again else (do
        (inner_type, plain) ← decrypt_record head payload
        (if inner_type == 0x16
            then again
            else if inner_type == 0x15
            then alert plain
            else (do update (λ c. record c { plainbuf = c.plainbuf ++ plain }); again)))))
    if leb 1 (length held)
        then (do update (λ c. record c { plainbuf = [] }); here (λ c. held))
        else next

  unfoldable pub read : Run (List ℕ)
  unfolding read_loop
  read = do n ← here rounds; read_loop (suc n)
