-- ===== src/Tls/Ending.antt =====
-- The loops of oracle/tls13.py over handshake messages and over records, with their fuel.
use browserfp.Prelude.{
  ℕ, zero, suc, ◌+◌, ◌-◌, ◌*◌, ◌<◌, ◌≤◌, ◌≡◌, refl, Bool, true, false, not, List, [], ◌∷◌, ◌++◌,
  length, length-drop, take, drop, ltb, leb, ◌==◌, ◌&&◌, ltb→lt, if◌then◌else◌, Option, none, some,
  Option-cases, Bool-cases, inl, inr, maybe, Result, ok, err, arith,
}
use browserfp.Prelude
use browserfp.Prelude.Ends.{Ends, Ends-or_raise, Ends-raise_if, ends_rules}
use browserfp.Bytes.Range.{u16_at-lt, byte_at-Ends, u16_at-Ends, u24_at-Ends, reads_end}
use browserfp.Tls.Library.{Library}
use browserfp.Tls.Schedule.{Keys, next_nonce}
use browserfp.Tls.Client.{Client, Run, ◌>>◌, here, update, add_transcript}
use browserfp.Tls.Record.{decrypt_record, send_encrypted, alert, read_loop, read}
use browserfp.Tls.ServerHello.{
  record_behind_ccs, take_server_hello, retry_transcript, read_server_hello,
  parse_encrypted_extensions,
}
use browserfp.Tls.Flight.{take_message, take_messages, flight_from, read_server_flight}
use browserfp.Tls.Draining.{
  left, EndsBelow, bind-EndsBelow, then-EndsBelow, if-EndsBelow, lift-EndsBelow, here-EndsBelow,
  set_already-EndsBelow, drawing-EndsBelow, fewer-EndsBelow, update-EndsBelow, record-EndsBelow,
  rounds-EndsBelow, never-EndsBelow,
}
use browserfp.Tls.Fields.{server_fields-Ends, alpn_from-Ends}
use browserfp.Builder.Packing.{pack16-Ends}

pub ruleset drains = (
  bind-EndsBelow, then-EndsBelow, if-EndsBelow, lift-EndsBelow, here-EndsBelow,
  set_already-EndsBelow, drawing-EndsBelow, update-EndsBelow, rounds-EndsBelow, reads_end, refl,
)

record_behind_ccs-EndsBelow : (n : ℕ) → EndsBelow n (record_behind_ccs n)
unfolding record_behind_ccs
record_behind_ccs-EndsBelow zero = never-EndsBelow _
record_behind_ccs-EndsBelow (suc n) = record-EndsBelow n _ (λ r.
    if-EndsBelow n (r.0 == 0x14) _ (here (λ c. r)) (record_behind_ccs-EndsBelow n)
      (here-EndsBelow n _))

pub add_transcript-EndsBelow : (n : ℕ) (b : List ℕ) → EndsBelow n (add_transcript b)
add_transcript-EndsBelow n b = update-EndsBelow n _ (λ c. refl)

parse_encrypted_extensions-EndsBelow :
    (n : ℕ) (msg : List ℕ) → EndsBelow n (parse_encrypted_extensions msg)
unfolding parse_encrypted_extensions
parse_encrypted_extensions-EndsBelow n msg =
    bind-EndsBelow n _ _ (lift-EndsBelow n _ (u16_at-Ends msg 4)) (λ total.
      bind-EndsBelow n _ _ (here-EndsBelow n _) (λ before.
        bind-EndsBelow n _ _
          (lift-EndsBelow n _
            (alpn_from-Ends (suc (length msg)) msg 6 (6 + total) before (omega arith)))
          (λ alpn. update-EndsBelow n _ (λ c. refl))))

retry_transcript-EndsBelow :
    (lib : Library) (n : ℕ) (b : Bool)
    → EndsBelow n (if b then retry_transcript lib else update (λ c. c))
unfolding retry_transcript
retry_transcript-EndsBelow lib n b = search drains

take_server_hello-EndsBelow :
    (lib : Library) (n : ℕ) (r : ℕ × List ℕ × List ℕ) → EndsBelow n (take_server_hello lib r)
unfolding take_server_hello
take_server_hello-EndsBelow lib n (ctype, head, body) =
    search
      (
        bind-EndsBelow,
        lift-EndsBelow,
        here-EndsBelow,
        update-EndsBelow,
        byte_at-Ends,
        Ends-raise_if,
        Ends-or_raise,
        server_fields-Ends,
        add_transcript-EndsBelow,
        retry_transcript-EndsBelow lib,
      )
      depth 40

pub read_server_hello-EndsBelow : (lib : Library) (n : ℕ) → EndsBelow n (read_server_hello lib)
unfolding read_server_hello
read_server_hello-EndsBelow lib n =
    rounds-EndsBelow n _ (λ k.
      bind-EndsBelow k _ _ (record_behind_ccs-EndsBelow k) (take_server_hello-EndsBelow lib k))

take_message-EndsBelow : (n htype : ℕ) (msg : List ℕ) → EndsBelow n (take_message htype msg)
unfolding take_message
take_message-EndsBelow n htype msg =
    search (drains, parse_encrypted_extensions-EndsBelow, add_transcript-EndsBelow)

take_messages-EndsBelow :
    (n fuel : ℕ) (pending : List ℕ)
    → length pending < fuel
    → EndsBelow n (take_messages fuel pending)
unfolding take_messages
take_messages-EndsBelow n zero pending h = absurd (omega arith)
take_messages-EndsBelow n (suc fuel) pending h = elim (Bool-cases (ltb (length pending) 4)) [
  | inl e ↦ rw e (here-EndsBelow n _)
  | inr e ↦ rw e (
      bind-EndsBelow n _ _ (lift-EndsBelow n _ (byte_at-Ends pending 0)) (λ htype.
        bind-EndsBelow n _ _ (lift-EndsBelow n _ (u24_at-Ends pending 1)) (λ hlen.
          if-EndsBelow n (ltb (length pending) (4 + hlen)) _ _ (here-EndsBelow n _) (
            then-EndsBelow n _ _ (take_message-EndsBelow n htype _) (
              if-EndsBelow n (htype == 20) _ _ (here-EndsBelow n _) (
                take_messages-EndsBelow n fuel (drop (4 + hlen) pending)
                  (ground (arith, length-drop (4 + hlen) pending))))))))
]

next_nonce-Ends : (k : Keys) → Ends (next_nonce k)
unfolding next_nonce
next_nonce-Ends k = search ends_rules

module _ (lib : Library) where
  decrypt_record-EndsBelow :
      (n : ℕ) (head payload : List ℕ) → EndsBelow n (decrypt_record lib head payload)
  unfolding decrypt_record
  decrypt_record-EndsBelow n head payload = search (drains, next_nonce-Ends) depth 30

  pub send_encrypted-EndsBelow :
      (n : ℕ) (sent : List ℕ) (inner : ℕ) → EndsBelow n (send_encrypted lib sent inner)
  unfolding send_encrypted
  send_encrypted-EndsBelow n sent inner = search (drains, next_nonce-Ends, pack16-Ends) depth 30

  alert-EndsBelow : (n : ℕ) (plain : List ℕ) → EndsBelow n (alert lib plain)
  unfolding alert
  alert-EndsBelow n plain = search drains depth 20

  hand_over-EndsBelow :
      (n : ℕ) (held : List ℕ)
      → EndsBelow n (update (λ c. record c { plainbuf = [] }) >> here (λ c. held))
  hand_over-EndsBelow n held = search drains

  keep-EndsBelow :
      (n : ℕ) (plain : List ℕ) (k : Run (List ℕ))
      → EndsBelow n k
      → EndsBelow n (update (λ c. record c { plainbuf = c.plainbuf ++ plain }) >> k)
  keep-EndsBelow n plain k hk = search (drains, hk)

  read_loop-EndsBelow : (n : ℕ) → EndsBelow n (read_loop lib n)
  unfolding read_loop
  read_loop-EndsBelow zero = never-EndsBelow _
  read_loop-EndsBelow (suc n) =
      bind-EndsBelow (suc n) (here (λ c. c.plainbuf)) _ (here-EndsBelow (suc n) _) (λ held.
        if-EndsBelow (suc n) (leb 1 (length held)) _ _ (hand_over-EndsBelow (suc n) held) (
          record-EndsBelow n _ (λ r. if-EndsBelow n (r.0 == 0x14) _ _ (read_loop-EndsBelow n) (
            bind-EndsBelow n (decrypt_record lib r.1 r.2) _ (decrypt_record-EndsBelow n _ _) (λ p.
              if-EndsBelow n (p.0 == 0x16) _ _ (read_loop-EndsBelow n) (
                if-EndsBelow n (p.0 == 0x15) _ _ (alert-EndsBelow n p.1)
                  (keep-EndsBelow n p.1 _ (read_loop-EndsBelow n))))))))

  flight_from-EndsBelow : (n : ℕ) (pending : List ℕ) → EndsBelow n (flight_from lib n pending)
  unfolding flight_from
  flight_from-EndsBelow zero pending = never-EndsBelow _
  flight_from-EndsBelow (suc n) pending = record-EndsBelow n _ (λ r.
      if-EndsBelow n (r.0 == 0x14) _ _ (flight_from-EndsBelow n pending) (
        then-EndsBelow n _ _ (lift-EndsBelow n _ (Ends-raise_if _ _)) (
          bind-EndsBelow n (decrypt_record lib r.1 r.2) _ (decrypt_record-EndsBelow n _ _) (λ p.
            then-EndsBelow n _ _ (lift-EndsBelow n _ (Ends-raise_if _ _)) (
              bind-EndsBelow n (take_messages (suc (length (pending ++ p.1))) (pending ++ p.1)) _
                (take_messages-EndsBelow n (suc (length (pending ++ p.1))) (pending ++ p.1)
                  (omega arith))
                (λ t.
                  if-EndsBelow n t.1 _ _ (update-EndsBelow n _ (λ c. refl))
                    (flight_from-EndsBelow n t.0)))))))

  pub read_server_flight-EndsBelow : (n : ℕ) → EndsBelow n (read_server_flight lib)
  unfolding read_server_flight
  read_server_flight-EndsBelow n = rounds-EndsBelow n _ (λ k. flight_from-EndsBelow k [])

  -- `read` comes to an end, whatever the peer has sent: it returns or raises.
  pub read-Ends : (c : Client) → Ends (read lib c)
  unfolding read
  read-Ends c =
      ((rounds-EndsBelow (suc (left c)) _
          (λ n. fewer-EndsBelow n _ (read_loop-EndsBelow (suc n)))).leaves
        c (omega arith)).ends
