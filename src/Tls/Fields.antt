-- ===== src/Tls/Fields.antt =====
-- The loops of oracle/tls13.py over extensions, and over the bytes of a text, with their fuel.
use browserfp.Prelude.{
  ℕ, zero, suc, ◌+◌, ◌-◌, ◌*◌, ◌<◌, Bool, List, [], ◌∷◌, length, ltb, leb, ◌==◌, ◌&&◌, Option, none,
  some, arith,
}
use browserfp.Prelude.Ends.{Ends, Ends-ok, Ends-err, Ends-if, Ends-bind}
use browserfp.Bytes.{slice}
use browserfp.Bytes.Range.{u16_at-lt, byte_at-Ends, u16_at-Ends, reads_end}
use browserfp.Text.{Text}
use browserfp.Tls.Utf8.{decode_utf8, decode_from}
use browserfp.Tls.ServerHello.{server_share, server_extensions, server_fields, alpn_from}

decode_from-Ends : (need lo hi bits : ℕ) (bs : List ℕ) → Ends (decode_from need lo hi bits bs)
unfolding decode_from
decode_from-Ends zero lo hi bits [] = Ends-ok _
decode_from-Ends (suc need) lo hi bits [] = Ends-err _
decode_from-Ends zero lo hi bits (b ∷ bs) =
    let go = λ (need lo hi bits : ℕ). decode_from-Ends need lo hi bits bs in
    Ends-if (ltb b 0x80) _ _ (λ _. Ends-bind _ _ (go zero 0 0 0) (λ t _. Ends-ok _))
      (λ _.
        Ends-if (leb 0xc2 b && leb b 0xdf) _ _ (λ _. go 1 0x80 0xbf (b - 0xc0))
          (λ _.
            Ends-if (b == 0xe0) _ _ (λ _. go 2 0xa0 0xbf 0)
              (λ _.
                Ends-if (b == 0xed) _ _ (λ _. go 2 0x80 0x9f 13)
                  (λ _.
                    Ends-if (leb 0xe1 b && leb b 0xef) _ _ (λ _. go 2 0x80 0xbf (b - 0xe0))
                      (λ _.
                        Ends-if (b == 0xf0) _ _ (λ _. go 3 0x90 0xbf 0)
                          (λ _.
                            Ends-if (b == 0xf4) _ _ (λ _. go 3 0x80 0x8f 4)
                              (λ _.
                                Ends-if (leb 0xf1 b && leb b 0xf3) _ _
                                  (λ _. go 3 0x80 0xbf (b - 0xf0)) (λ _. Ends-err _))))))))
decode_from-Ends (suc zero) lo hi bits (b ∷ bs) =
    Ends-if (leb lo b && leb b hi) _ _
      (λ _. Ends-bind _ _ (decode_from-Ends zero 0 0 0 bs) (λ t _. Ends-ok _)) (λ _. Ends-err _)
decode_from-Ends (suc (suc more)) lo hi bits (b ∷ bs) =
    Ends-if (leb lo b && leb b hi) _ _
      (λ _. decode_from-Ends (suc more) 0x80 0xbf (bits * 64 + (b - 0x80)) bs) (λ _. Ends-err _)

decode_utf8-Ends : (b : List ℕ) → Ends (decode_utf8 b)
unfolding decode_utf8
decode_utf8-Ends b = decode_from-Ends zero 0 0 0 b

server_share-Ends : (is_hrr : Bool) (ebody : List ℕ) → Ends (server_share is_hrr ebody)
unfolding server_share
server_share-Ends is_hrr ebody = search reads_end depth 12

server_extensions-Ends :
    (fuel : ℕ) (is_hrr : Bool) (body : List ℕ) (o end : ℕ) (share : Option (List ℕ × ℕ))
    → length body - o < fuel
    → Ends (server_extensions fuel is_hrr body o end share)
unfolding server_extensions
server_extensions-Ends zero is_hrr body o end share h = absurd (omega arith)
server_extensions-Ends (suc fuel) is_hrr body o end share h =
    Ends-if (ltb o end) _ _
      (λ _. Ends-bind _ _ (u16_at-Ends body o) (λ eid e.
        Ends-bind _ _ (u16_at-Ends body (o + 2)) (λ elen _.
          let next = λ (s : Option (List ℕ × ℕ)).
            server_extensions-Ends fuel is_hrr body (o + 4 + elen) end s
              (omega (arith, u16_at-lt body o eid e)) in
          Ends-if (eid == 0x0033) _ _
            (λ _. Ends-bind _ _ (server_share-Ends is_hrr _) (λ s _. next (some s)))
            (λ _. next share))))
      (λ _. Ends-ok share)

pub server_fields-Ends : (is_hrr : Bool) (body : List ℕ) → Ends (server_fields is_hrr body)
unfolding server_fields
server_fields-Ends is_hrr body = Ends-bind _ _ (byte_at-Ends body 38) (λ sid_len _.
    Ends-bind _ _ (u16_at-Ends body _) (λ cipher _. Ends-bind _ _ (u16_at-Ends body _) (λ total _.
      Ends-bind _ _
        (server_extensions-Ends (suc (length body)) is_hrr body (44 + sid_len)
          (44 + sid_len + total) none (omega arith))
        (λ share _. Ends-ok _))))

pub alpn_from-Ends :
    (fuel : ℕ) (msg : List ℕ) (o end : ℕ) (alpn : Option Text)
    → length msg - o < fuel
    → Ends (alpn_from fuel msg o end alpn)
unfolding alpn_from
alpn_from-Ends zero msg o end alpn h = absurd (omega arith)
alpn_from-Ends (suc fuel) msg o end alpn h =
    Ends-if (ltb o end) _ _
      (λ _. Ends-bind _ _ (u16_at-Ends msg o) (λ eid e.
        Ends-bind _ _ (u16_at-Ends msg (o + 2)) (λ elen _.
          let next = λ (a : Option Text).
            alpn_from-Ends fuel msg (o + 4 + elen) end a (omega (arith, u16_at-lt msg o eid e)) in
          let ebody = slice msg (o + 4) (o + 4 + elen) in
          Ends-if (eid == 0x0010 && leb 3 (length ebody)) _ _
            (λ _. Ends-bind _ _ (byte_at-Ends ebody 2) (λ n _.
              Ends-bind _ _ (decode_utf8-Ends (slice ebody 3 (3 + n)))
                (λ name _. next (some name))))
            (λ _. next alpn))))
      (λ _. Ends-ok alpn)
