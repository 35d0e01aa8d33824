-- ===== src/Builder/Assemble.antt =====
-- The parts of `build_client_hello` of oracle/chbuild.py that draw nothing: decoding the profile's
-- bodies, the bodies of single extensions, and the record around the parts.
use browserfp.Prelude.{
  ℕ, List, [], ◌∷◌, ◌++◌, elem, if◌then◌else◌, Option, some, none, Result, ok, ◌>>=◌,
}
use browserfp.Bytes.{pack16}
use browserfp.Text.{Text, from_hex}
use browserfp.ClientHello.Grease.{is_grease}
use browserfp.Builder.Vec.{vec, pack16s, pack8s}

-- `{int(k): bytes.fromhex(v) for k, v in ….items()}`
unfoldable pub decode_bodies : List (ℕ × Text) → Result (List (ℕ × List ℕ))
decode_bodies [] = ok []
decode_bodies ((k, v) ∷ rest) = do b ← from_hex v; bs ← decode_bodies rest; ok ((k, b) ∷ bs)

-- The SNI extension goes behind a GREASE extension that comes first, and in front of all others.
unfoldable pub insert_sni : Option (List ℕ) → List ℕ → List ℕ
insert_sni none order = order
insert_sni (some name) [] = 0x0000 ∷ []
insert_sni (some name) (e ∷ es) =
    if elem 0x0000 (e ∷ es)
    then e ∷ es
    else if is_grease e
    then e ∷ 0x0000 ∷ es
    else 0x0000 ∷ e ∷ es

unfoldable pub sni_body : List ℕ → Result (List ℕ)
sni_body name = do entry ← vec name 2; vec (0 ∷ entry) 2

unfoldable pub hrr_body : ℕ → List ℕ → Result (List ℕ)
hrr_body group key = do id ← pack16 group; entry ← vec key 2; vec (id ++ entry) 2

-- What the handshake message holds behind its header.
unfoldable pub hello_bytes : ℕ → List ℕ → List ℕ → List ℕ → List ℕ → List ℕ → Result (List ℕ)
hello_bytes version random session ciphers compression ext_bytes = do
  v ← pack16 version
  s ← vec session 1
  c ← pack16s ciphers
  cs ← vec c 2
  m ← pack8s compression
  ms ← vec m 1
  es ← vec ext_bytes 2
  ok (v ++ (random ++ (s ++ (cs ++ (ms ++ es)))))

unfoldable pub record_bytes : ℕ → List ℕ → Result (List ℕ)
record_bytes record_version hello = do
  h ← vec hello 3
  v ← pack16 record_version
  body ← vec (0x01 ∷ h) 2
  ok (0x16 ∷ (v ++ body))
