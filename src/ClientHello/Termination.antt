-- ===== src/ClientHello/Termination.antt =====
-- The loops of `parse_client_hello` of oracle/clienthello.py and their fuel.
use browserfp.Prelude.{ℕ, zero, suc, ◌+◌, ◌-◌, ◌<◌, List, [], ◌∷◌, length, ltb, arith}
use browserfp.Prelude.Ends.{Ends, Ends-if, Ends-bind, Ends-ok}
use browserfp.Bytes.{byte_at, u16_at}
use browserfp.Bytes.Range.{byte_at-lt, u16_at-lt, byte_at-Ends, u16_at-Ends, reads_end}
use browserfp.Text.{Text}
use browserfp.ClientHello.Known.{Known, names_from, names, read_extension, read_extensions}
use browserfp.ClientHello.Parse.{
  Extension, extensions_from, extension_block, record_body, parse_body, parse_client_hello,
}

names_from-Ends :
    (fuel : ℕ) (body : List ℕ) (o end : ℕ) (out : List Text)
    → length body - o < fuel
    → Ends (names_from fuel body o end out)
unfolding names_from
names_from-Ends zero body o end out h = absurd (omega arith)
names_from-Ends (suc fuel) body o end out h =
    Ends-if (ltb o end) _ _
      (λ _. Ends-bind (byte_at body o) _ (byte_at-Ends body o) (λ ln e.
        names_from-Ends fuel body (o + (1 + ln)) end _ (omega (arith, byte_at-lt body o ln e))))
      (λ _. Ends-ok out)

names-Ends : (body : List ℕ) (out : List Text) → Ends (names body out)
unfolding names
names-Ends body out =
    Ends-bind _ _ (u16_at-Ends body 0)
      (λ n _. names_from-Ends (suc (length body)) body 2 (2 + n) out (omega arith))

extensions_from-Ends :
    (fuel : ℕ) (body : List ℕ) (o end : ℕ) (out : List Extension)
    → length body - o < fuel
    → Ends (extensions_from fuel body o end out)
unfolding extensions_from
extensions_from-Ends zero body o end out h = absurd (omega arith)
extensions_from-Ends (suc fuel) body o end out h =
    Ends-if (ltb o end) _ _
      (λ _. Ends-bind (u16_at body o) _ (u16_at-Ends body o) (λ ext_id e.
        Ends-bind (u16_at body (o + 2)) _ (u16_at-Ends body (o + 2)) (λ ln _.
          extensions_from-Ends fuel body (o + 4 + ln) end _
            (omega (arith, u16_at-lt body o ext_id e)))))
      (λ _. Ends-ok out)

extension_block-Ends : (body : List ℕ) (o : ℕ) → Ends (extension_block body o)
unfolding extension_block
extension_block-Ends body o =
    Ends-if _ _ _
      (λ _.
        Ends-bind _ _ (u16_at-Ends body o) (λ n _.
          extensions_from-Ends (suc (length body)) body (o + 2) (o + 2 + n) [] (omega arith)))
      (λ _. Ends-ok [])

read_extension-Ends :
    (res : Known) (ext_id : ℕ) (body : List ℕ) → Ends (read_extension res ext_id body)
unfolding read_extension
read_extension-Ends res ext_id body = search (reads_end, names-Ends) depth 16

read_extensions-Ends : (res : Known) (es : List Extension) → Ends (read_extensions res es)
unfolding read_extensions
read_extensions-Ends res [] = Ends-ok res
read_extensions-Ends res ((ext_id, body) ∷ rest) =
    Ends-bind _ _ (read_extension-Ends res ext_id body) (λ res' _. read_extensions-Ends res' rest)

record_body-Ends : (rec : List ℕ) → Ends (record_body rec)
unfolding record_body
record_body-Ends rec = search reads_end depth 16

parse_body-Ends : (rec_ver : ℕ) (body : List ℕ) → Ends (parse_body rec_ver body)
unfolding parse_body
parse_body-Ends rec_ver body =
    search (reads_end, extension_block-Ends, read_extensions-Ends) depth 24

-- On every input the parser returns or raises: none of its loops runs out of fuel.
pub parse_client_hello-Ends : (rec : List ℕ) → Ends (parse_client_hello rec)
unfolding parse_client_hello
parse_client_hello-Ends rec = Ends-bind _ _ (record_body-Ends rec) (λ p _. parse_body-Ends p.0 p.1)
