-- ===== src/Tls/Flight.antt =====
-- `_read_server_flight` of oracle/tls13.py: from EncryptedExtensions to Finished, whatever records they
-- come in.
use browserfp.Prelude.{
  ℕ, zero, suc, ◌+◌, Bool, true, false, not, List, [], ◌++◌, length, take, drop, ltb, ◌==◌,
  if◌then◌else◌, stuck, raise_if, wrong_record_type, wrong_inner_type,
}
use browserfp.Bytes.{byte_at, u24_at}
use browserfp.Tls.Library.{Library}
use browserfp.Tls.Client.{Run, ◌>>=◌, ◌>>◌, lift, here, update, add_transcript}
use browserfp.Tls.Stream.{read_record, rounds}
use browserfp.Tls.Record.{decrypt_record}
use browserfp.Tls.ServerHello.{parse_encrypted_extensions}

-- One handshake message.
unfoldable pub take_message : ℕ → List ℕ → Run (Unit {0})
unfolding parse_encrypted_extensions
take_message htype msg = do
  (if htype == 8 then parse_encrypted_extensions msg else update (λ c. c))
  add_transcript msg

-- The messages that are complete: what is left over, and whether Finished was one of them. Each takes
-- four bytes at least.
unfoldable pub take_messages : ℕ → List ℕ → Run (List ℕ × Bool)
unfolding take_message
take_messages zero pending = lift stuck
take_messages (suc fuel) pending =
    let round = (do
      htype ← lift (byte_at pending 0)
      hlen ← lift (u24_at pending 1)
      let rest = take_messages fuel (drop (4 + hlen) pending)
      let one = (do
        take_message htype (take (4 + hlen) pending)
        (if htype == 20 then here (λ c. (drop (4 + hlen) pending, true)) else rest))
      if ltb (length pending) (4 + hlen) then here (λ c. (pending, false)) else one) in
    if ltb (length pending) 4 then here (λ c. (pending, false)) else round

module _ (lib : Library) where
  unfoldable pub flight_from : ℕ → List ℕ → Run (Unit {0})
  unfolding take_messages
  flight_from zero pending = lift stuck
  flight_from (suc fuel) pending = do
    (ctype, head, payload) ← read_record
    let skip = flight_from fuel pending
    let handle = (do
      lift (raise_if (not (ctype == 0x17)) wrong_record_type)
      (inner_type, plain) ← decrypt_record lib head payload
      lift (raise_if (not (inner_type == 0x16)) wrong_inner_type)
      let held = pending ++ plain
      (left, finished) ← take_messages (suc (length held)) held
      (let more = flight_from fuel left in if finished then update (λ c. c) else more))
    if ctype == 0x14 then skip else handle

  unfoldable pub read_server_flight : Run (Unit {0})
  unfolding flight_from
  read_server_flight = do n ← here rounds; flight_from n []
