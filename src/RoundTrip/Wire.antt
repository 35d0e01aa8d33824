-- ===== src/RoundTrip/Wire.antt =====
-- The record on the wire: what the packing functions write, and what the parser reads there.
use browserfp.Prelude.{
  ℕ, ◌+◌, ◌*◌, ◌/◌, ◌%◌, ◌<◌, ◌≡◌, refl, sym, ap, ap₂, ◌∙◌, List, [], ◌∷◌, ◌++◌, append-nil, length,
  length-append, All, le→ltb, ok, >>=-eq-ok, ok_bind, ok-injective, arith,
}
use browserfp.Bytes.{be16, be16s, IsWord, IsByte, u16_at, pack8, pack16}
use browserfp.Bytes.Cursor.{byte_at-drop, u16_at-drop, slice-drop, length-be16s}
use browserfp.ClientHello.Parse.{record_body}
use browserfp.Builder.Vec.{vec, pack16s, pack8s}
use browserfp.Builder.Assemble.{hello_bytes, record_bytes}
use browserfp.RoundTrip.Blocks.{be16_value, pack16-eq_ok, vec2-eq_ok}

vec1-eq_ok : (b : List ℕ) {x : List ℕ} → vec b 1 ≡ ok x → (length b < 256) × (x ≡ length b ∷ b)
unfolding vec pack8
vec1-eq_ok b h = ground arith

pack16s-eq_ok : (vs : List ℕ) {x : List ℕ} → pack16s vs ≡ ok x → All IsWord vs × (x ≡ be16s vs)
unfolding pack16s
pack16s-eq_ok [] h = (tt, sym (ok-injective h))
pack16s-eq_ok (v ∷ vs) h =
    let (b, eb, h') = >>=-eq-ok (pack16 v) _ h in
    let (bs, ebs, h'') = >>=-eq-ok (pack16s vs) _ h' in
    let (w, q) = pack16-eq_ok v eb in
    let (ws, qs) = pack16s-eq_ok vs ebs in ((w, ws), sym (ok-injective h'') ∙ ap₂ ◌++◌ q qs)

pack8-eq_ok : (v : ℕ) {x : List ℕ} → pack8 v ≡ ok x → IsByte v × (x ≡ v ∷ [])
unfolding pack8
pack8-eq_ok v h = ground arith

pack8s-eq_ok : (vs : List ℕ) {x : List ℕ} → pack8s vs ≡ ok x → All IsByte vs × (x ≡ vs)
unfolding pack8s
pack8s-eq_ok [] h = (tt, sym (ok-injective h))
pack8s-eq_ok (v ∷ vs) h =
    let (b, eb, h') = >>=-eq-ok (pack8 v) _ h in
    let (bs, ebs, h'') = >>=-eq-ok (pack8s vs) _ h' in
    let (w, q) = pack8-eq_ok v eb in
    let (ws, qs) = pack8s-eq_ok vs ebs in ((w, ws), sym (ok-injective h'') ∙ ap₂ ◌++◌ q qs)

-- The parts of a handshake message that was packed, and their ranges.
pub record Packed (version : ℕ) (session ciphers compression block : List ℕ) : Type 0 where
  pub version_fits : IsWord version
  pub session_fits : length session < 256
  pub ciphers_fit : All IsWord ciphers
  pub ciphers_len : 2 * length ciphers < 65536
  pub compression_fits : length compression < 256
  pub block_fits : IsWord (length block)

abbrev pub wire : ℕ → List ℕ → List ℕ → List ℕ → List ℕ → List ℕ → List ℕ
wire version random session ciphers compression block =
    be16 version
    ++ (random
        ++ ((length session ∷ [])
            ++ (session
                ++ (be16 (2 * length ciphers)
                    ++ (be16s ciphers
                        ++ ((length compression ∷ [])
                            ++ (compression ++ (be16 (length block) ++ block))))))))

pub length-wire :
    (version : ℕ) (random session ciphers compression block : List ℕ)
    → length (wire version random session ciphers compression block)
      ≡ 2
        + length random
        + 1
        + length session
        + 2
        + 2 * length ciphers
        + 1
        + length compression
        + 2
        + length block
length-wire version random session ciphers compression block =
    omega (arith, length-append {0}, length-be16s ciphers)

packed :
    (version : ℕ) (random session ciphers compression block x : List ℕ) {v s c cs m ms bs : List ℕ}
    → IsWord version × (v ≡ be16 version)
    → (length session < 256) × (s ≡ length session ∷ session)
    → All IsWord ciphers × (c ≡ be16s ciphers)
    → IsWord (length c) × (cs ≡ be16 (length c) ++ c)
    → All IsByte compression × (m ≡ compression)
    → (length m < 256) × (ms ≡ length m ∷ m)
    → IsWord (length block) × (bs ≡ be16 (length block) ++ block)
    → v ++ (random ++ (s ++ (cs ++ (ms ++ bs)))) ≡ x
    → Packed version session ciphers compression block
      × (x ≡ wire version random session ciphers compression block)
packed version random session ciphers compression block x {c = c} {m = m} (wv, qv) (ws, qs) (wc, qc)
      (wcs, qcs) (wm, qm) (wms, qms) (wb, qb) q =
    let len : length c ≡ 2 * length ciphers = ap length qc ∙ length-be16s ciphers in
    (
      record {
        version_fits = wv;
        session_fits = ws;
        ciphers_fit = wc;
        ciphers_len = rw len at wcs;
        compression_fits = rw qm at wms;
        block_fits = wb;
      },
      rw (← q, qv, qs, qcs, qms, qb, len, qc, qm) refl,
    )

pub hello_bytes-eq_ok :
    (version : ℕ) (random session ciphers compression block : List ℕ) {x : List ℕ}
    → hello_bytes version random session ciphers compression block ≡ ok x
    → Packed version session ciphers compression block
      × (x ≡ wire version random session ciphers compression block)
unfolding hello_bytes
hello_bytes-eq_ok version random session ciphers compression block h =
    ok_bind (pack16 version) _ h λ v ev h1. ok_bind (vec session 1) _ h1 λ s es h2.
      ok_bind (pack16s ciphers) _ h2 λ c ec h3. ok_bind (vec c 2) _ h3 λ cs ecs h4.
        ok_bind (pack8s compression) _ h4 λ m em h5. ok_bind (vec m 1) _ h5 λ ms ems h6.
          ok_bind (vec block 2) _ h6 λ bs ebs h7.
            packed version random session ciphers compression block _ (pack16-eq_ok version ev)
              (vec1-eq_ok session es) (pack16s-eq_ok ciphers ec) (vec2-eq_ok c ecs)
              (pack8s-eq_ok compression em) (vec1-eq_ok m ems) (vec2-eq_ok block ebs)
              (ok-injective h7)

-- What the record layer of the parser leaves of a record with a version and a length.
record_body-framed :
    (record_version : ℕ) (body : List ℕ)
    → record_body (0x16 ∷ (be16 record_version ++ (be16 (length body) ++ body)))
      ≡ ok (record_version, body)
unfolding record_body
record_body-framed record_version body =
    let rec : List ℕ = 0x16 ∷ (be16 record_version ++ (be16 (length body) ++ body)) in
    let kind = byte_at-drop rec 0 _ _ refl in
    let version : u16_at rec 1 ≡ ok record_version =
      u16_at-drop rec 1 _ _ _ refl ∙ ap ok (be16_value record_version) in
    let len : u16_at rec 3 ≡ ok (length body) =
      u16_at-drop rec 3 _ _ _ refl ∙ ap ok (be16_value (length body)) in
    let part = slice-drop rec 5 body [] (sym (append-nil body)) in
    rw (
      le→ltb (length rec) 5 (omega arith),
      kind,
      version,
      len,
      part,
      le→ltb (length body) (length body) (omega arith),
    )

pub record_bytes-eq_ok :
    (record_version : ℕ) (hello : List ℕ) {rec : List ℕ}
    → record_bytes record_version hello ≡ ok rec
    → (n2 n1 n0 : ℕ) × (record_body rec ≡ ok (record_version, 0x01 ∷ n2 ∷ n1 ∷ n0 ∷ hello))
      × (length rec ≡ length hello + 9)
unfolding record_bytes vec
record_bytes-eq_ok record_version hello {rec} h =
    let head : List ℕ =
      0x01
      ∷ (length hello / 65536 % 256)
      ∷ (length hello / 256 % 256)
      ∷ (length hello % 256)
      ∷ hello in
    ok_bind (pack16 record_version) _ h λ v ev h1. ok_bind (vec head 2) _ h1 λ b eb h2.
      let whole : 0x16 ∷ (be16 record_version ++ (be16 (length head) ++ head)) ≡ rec =
        rw (← ok-injective h2, (pack16-eq_ok record_version ev).1, (vec2-eq_ok head eb).1) refl in
      (
        length hello / 65536 % 256,
        length hello / 256 % 256,
        length hello % 256,
        rw (← whole) (record_body-framed record_version head),
        rw (← whole) (omega arith),
      )
