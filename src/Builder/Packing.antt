-- ===== src/Builder/Packing.antt =====
-- `_vec` and what oracle/chbuild.py packs with it: how each of them ends.
use browserfp.Prelude.{ℕ, zero, suc, Bool, true, false, List, [], ◌∷◌}
use browserfp.Prelude.Ends.{Ends, Ends-ok, Ends-err, Ends-if, Ends-bind, Ends-or_raise, ends_rules}
use browserfp.Bytes.{pack8, pack16}
use browserfp.Text.{Text, from_hex, hex_value, is_space}
use browserfp.ClientHello.Fingerprint.{Fingerprint}
use browserfp.Builder.Vec.{vec, pack16s, pack8s, pack_extension}
use browserfp.Builder.KeyShare.{starts_with, after_first}
use browserfp.Builder.Padding.{pad}
use browserfp.Builder.Assemble.{decode_bodies, sni_body, hrr_body, hello_bytes, record_bytes}

pub pack8-Ends : (v : ℕ) → Ends (pack8 v)
unfolding pack8
pack8-Ends v = search ends_rules

pub pack16-Ends : (v : ℕ) → Ends (pack16 v)
unfolding pack16
pack16-Ends v = search ends_rules

pub vec-Ends : (body : List ℕ) (n : ℕ) → Ends (vec body n)
unfolding vec
vec-Ends body zero = Ends-err _
vec-Ends body (suc zero) = search (ends_rules, pack8-Ends)
vec-Ends body (suc (suc zero)) = search (ends_rules, pack16-Ends)
vec-Ends body (suc (suc (suc zero))) = Ends-ok _
vec-Ends body (suc (suc (suc (suc n)))) = Ends-err _

pub pack16s-Ends : (vs : List ℕ) → Ends (pack16s vs)
unfolding pack16s
pack16s-Ends [] = Ends-ok _
pack16s-Ends (v ∷ vs) =
    Ends-bind _ _ (pack16-Ends v) (λ b _. Ends-bind _ _ (pack16s-Ends vs) (λ bs _. Ends-ok _))

pack8s-Ends : (vs : List ℕ) → Ends (pack8s vs)
unfolding pack8s
pack8s-Ends [] = Ends-ok _
pack8s-Ends (v ∷ vs) =
    Ends-bind _ _ (pack8-Ends v) (λ b _. Ends-bind _ _ (pack8s-Ends vs) (λ bs _. Ends-ok _))

pub pack_extension-Ends : (e : ℕ) (body : List ℕ) → Ends (pack_extension e body)
unfolding pack_extension
pack_extension-Ends e body = search (ends_rules, pack16-Ends, vec-Ends)

pub from_hex-Ends : (t : Text) → Ends (from_hex t)
unfolding from_hex
from_hex-Ends [] = Ends-ok _
from_hex-Ends (c ∷ []) = search ends_rules
from_hex-Ends (c ∷ d ∷ t) =
    Ends-if (is_space c) (from_hex (d ∷ t)) _ (λ _. from_hex-Ends (d ∷ t))
      (λ _. Ends-bind _ _ (Ends-or_raise _ (hex_value c)) (λ hi _.
        Ends-bind _ _ (Ends-or_raise _ (hex_value d))
          (λ lo _. Ends-bind _ _ (from_hex-Ends t) (λ bs _. Ends-ok _))))

pub decode_bodies-Ends : (bs : List (ℕ × Text)) → Ends (decode_bodies bs)
unfolding decode_bodies
decode_bodies-Ends [] = Ends-ok _
decode_bodies-Ends ((k, v) ∷ rest) =
    Ends-bind _ _ (from_hex-Ends v)
      (λ b _. Ends-bind _ _ (decode_bodies-Ends rest) (λ bs _. Ends-ok _))

pub after_first-Ends : (pat b : List ℕ) → Ends (after_first pat b)
unfolding after_first
after_first-Ends pat [] = search ends_rules
after_first-Ends pat (x ∷ xs) =
    Ends-if (starts_with (x ∷ xs) pat) _ _ (λ _. Ends-ok _) (λ _. after_first-Ends pat xs)

pub sni_body-Ends : (name : List ℕ) → Ends (sni_body name)
unfolding sni_body
sni_body-Ends name = search (ends_rules, vec-Ends)

pub hrr_body-Ends : (group : ℕ) (key : List ℕ) → Ends (hrr_body group key)
unfolding hrr_body
hrr_body-Ends group key = search (ends_rules, vec-Ends, pack16-Ends)

pub pad-Ends :
    (verbatim : Bool) (profile : Fingerprint) (ext_bytes : List ℕ)
    → Ends (pad verbatim profile ext_bytes)
unfolding pad
pad-Ends true profile ext_bytes = Ends-ok _
pad-Ends false profile ext_bytes = search (ends_rules, pack_extension-Ends)

pub hello_bytes-Ends :
    (version : ℕ) (random session ciphers compression ext_bytes : List ℕ)
    → Ends (hello_bytes version random session ciphers compression ext_bytes)
unfolding hello_bytes
hello_bytes-Ends version random session ciphers compression ext_bytes =
    search (ends_rules, pack16-Ends, vec-Ends, pack16s-Ends, pack8s-Ends) depth 20

pub record_bytes-Ends : (version : ℕ) (hello : List ℕ) → Ends (record_bytes version hello)
unfolding record_bytes
record_bytes-Ends version hello = search (ends_rules, pack16-Ends, vec-Ends) depth 12
