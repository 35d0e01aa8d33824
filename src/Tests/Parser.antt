-- ===== src/Tests/Parser.antt =====
-- Runs of the parser and of JA4.
use mathlib.Core.List.Perm
use browserfp.Prelude.{◌≡◌, refl, [], ◌∷◌, elem, none, some, false, ok, arith}
use browserfp.Prelude.Ends.{Ends}
use browserfp.Text.{text, hex, from_hex, from_hex-hex}
use browserfp.ClientHello.Grease.{is_grease}
use browserfp.ClientHello.Known.{nothing_known}
use browserfp.ClientHello.Parse.{Hello, hello_of, parse_client_hello}
use browserfp.ClientHello.Ja.{Ja4Fields, ja4_fields, ja4_b, ja4_c, ja4}
use browserfp.ClientHello.Fingerprint.{drop_sni}
use browserfp.ClientHello.Termination.{parse_client_hello-Ends}
use browserfp.ClientHello.Order.{SameClient, ja4-order, drop_sni-hashes}
use browserfp.Tests.Samples.{zero_hex}

from_hex-hex_example : from_hex (hex (0 ∷ 171 ∷ 255 ∷ [])) ≡ ok (0 ∷ 171 ∷ 255 ∷ [])
from_hex-hex_example =
    from_hex-hex (0 ∷ 171 ∷ 255 ∷ []) (omega arith, (omega arith, (omega arith, tt)))

-- A record whose body ends in the session id.
parse_client_hello-Ends_example :
    Ends (parse_client_hello (22 ∷ 3 ∷ 1 ∷ 0 ∷ 5 ∷ 1 ∷ 0 ∷ 0 ∷ 1 ∷ 3 ∷ []))
parse_client_hello-Ends_example =
    parse_client_hello-Ends (22 ∷ 3 ∷ 1 ∷ 0 ∷ 5 ∷ 1 ∷ 0 ∷ 0 ∷ 1 ∷ 3 ∷ [])

abbrev one_client : Ja4Fields
one_client = record {
  sni = some (text "a.io");
  ciphers = 0x1301 ∷ 0x1302 ∷ [];
  extensions = 0 ∷ 10 ∷ 16 ∷ [];
  sig_algs = 0x0403 ∷ 0x0804 ∷ [];
  alpn = text "h2" ∷ [];
  supported_versions = 0x0304 ∷ [];
  client_version = 0x0303;
}

abbrev same_client : Ja4Fields
same_client = record one_client {
  ciphers = 0x1302 ∷ 0x1301 ∷ [];
  sig_algs = 0x0a0a ∷ 0x0403 ∷ 0x0804 ∷ [];
}

same : SameClient one_client same_client
unfolding is_grease
same = record {
  sni = refl;
  ciphers = Perm.swap _ _ _;
  extensions = Perm.refl _;
  sig_algs = refl;
  alpn = refl;
  supported_versions = refl;
  client_version = refl;
}

ja4-order_example : ja4 zero_hex one_client ≡ ja4 zero_hex same_client
ja4-order_example = ja4-order zero_hex one_client same_client same

abbrev sample_hello : Hello
sample_hello =
    hello_of 0x0301 0x0303 0 [] (0 ∷ []) (0x1301 ∷ []) ((0, []) ∷ (16, []) ∷ [])
      (record nothing_known { sni = some (text "a.io") })

drop_sni-hashes_example :
    (ja4_b zero_hex (ja4_fields (drop_sni sample_hello)) ≡ ja4_b zero_hex (ja4_fields sample_hello))
    × (ja4_c zero_hex (ja4_fields (drop_sni sample_hello))
        ≡ ja4_c zero_hex (ja4_fields sample_hello))
    × ((drop_sni sample_hello).sni ≡ none)
    × (elem 0 (drop_sni sample_hello).extensions ≡ false)
drop_sni-hashes_example = drop_sni-hashes zero_hex sample_hello
