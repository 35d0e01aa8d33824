-- ===== src/RoundTrip/Reading.antt =====
-- What the parser reads in a handshake message whose parts are known.
use browserfp.Prelude.{
  ℕ, suc, ◌+◌, ◌*◌, ◌/◌, ◌≡◌, refl, ap, subst, ◌∙◌, List, [], ◌∷◌, ◌++◌, length, drop, All, lt→ltb,
  ok, ◌>>=◌, arith,
}
use browserfp.Bytes.{be16, be16s, byte_at, u16_at, u24_at, u16s_at, slice}
use browserfp.Bytes.Cursor.{
  byte_at-drop, u16_at-drop, u24_at-drop, drop-next, slice-drop, u16s_at-drop, length-be16s,
}
use browserfp.ClientHello.Known.{nothing_known, read_extensions}
use browserfp.ClientHello.Parse.{Extension, hello_of, extension_block, parse_body}
use browserfp.RoundTrip.Blocks.{encode, Fits, be16_value, extensions_from-encode}
use browserfp.RoundTrip.Wire.{Packed, wire, length-wire}

-- The block of `items` from offset `o` on, behind its length, to the end of the body.
extension_block-encode :
    (body : List ℕ) (o : ℕ) (items : List Extension)
    → All Fits items
    → drop o body ≡ be16 (length (encode items)) ++ encode items
    → length body ≡ o + 2 + length (encode items)
    → extension_block body o ≡ ok items
unfolding extension_block
extension_block-encode body o items w d n =
    let total : u16_at body o ≡ ok (length (encode items)) =
      u16_at-drop body o _ _ _ d ∙ ap ok (be16_value (length (encode items))) in
    let d2 = drop-next body o (be16 (length (encode items))) (encode items) d in
    rw (lt→ltb o (length body) (omega arith), total)
      (extensions_from-encode (suc (length body)) body (o + 2) _ items [] w d2 refl (omega arith))

module _ (version : ℕ) (random session ciphers compression : List ℕ) (items : List Extension)
    (n2 n1 n0 : ℕ) where
  abbrev message : List ℕ
  message = 0x01 ∷ n2 ∷ n1 ∷ n0 ∷ wire version random session ciphers compression (encode items)

  pub parse_body-wire :
      (rec_ver : ℕ)
      → length random ≡ 32
      → Packed version session ciphers compression (encode items)
      → All Fits items
      → parse_body rec_ver message ≡ (
          read_extensions nothing_known items >>= λ known.
          ok (hello_of rec_ver version (length session) random compression ciphers items known))
  unfolding parse_body
  parse_body-wire rec_ver h32 p w =
      rw (kind, hs_len, client_ver, random_part, sid, cs_len, ciphers_part, comp, comp_part, block)
        refl
    where
      b : List ℕ
      b = message

      block_part : List ℕ
      block_part = be16 (length (encode items)) ++ encode items

      from_comp : List ℕ
      from_comp = (length compression ∷ []) ++ (compression ++ block_part)

      from_ciphers : List ℕ
      from_ciphers = be16s ciphers ++ from_comp

      from_session : List ℕ
      from_session =
          (length session ∷ []) ++ (session ++ (be16 (2 * length ciphers) ++ from_ciphers))

      kind : byte_at b 0 ≡ ok 0x01
      kind = byte_at-drop b 0 _ _ refl

      hs_len : u24_at b 1 ≡ ok (n2 * 65536 + n1 * 256 + n0)
      hs_len = u24_at-drop b 1 n2 n1 n0 _ refl

      client_ver : u16_at b 4 ≡ ok version
      client_ver = u16_at-drop b 4 _ _ _ refl ∙ ap ok (be16_value version)

      random_part : slice b 6 38 ≡ random
      random_part =
          subst (λ (k : ℕ). slice b 6 k ≡ random) (ap (λ (k : ℕ). 6 + k) h32)
            (slice-drop b 6 random from_session refl)

      d38 : drop 38 b ≡ from_session
      d38 =
          subst (λ (k : ℕ). drop k b ≡ from_session) (ap (λ (k : ℕ). 6 + k) h32)
            (drop-next b 6 random from_session refl)

      sid : byte_at b 38 ≡ ok (length session)
      sid = byte_at-drop b 38 _ _ d38

      d39 : drop 39 b ≡ session ++ (be16 (2 * length ciphers) ++ from_ciphers)
      d39 = drop-next b 38 (length session ∷ []) _ d38

      o : ℕ
      o = 39 + length session

      dc : drop o b ≡ be16 (2 * length ciphers) ++ from_ciphers
      dc = drop-next b 39 session _ d39

      cs_len : u16_at b o ≡ ok (2 * length ciphers)
      cs_len = u16_at-drop b o _ _ _ dc ∙ ap ok (be16_value (2 * length ciphers))

      dcs : drop (o + 2) b ≡ from_ciphers
      dcs = drop-next b o (be16 (2 * length ciphers)) _ dc

      whole :
          length b ≡ o + 2 + 2 * length ciphers + 1 + length compression + 2 + length (encode items)
      whole =
          omega (arith, length-wire version random session ciphers compression (encode items), h32)

      ciphers_part : u16s_at b (o + 2) (2 * length ciphers / 2) ≡ ok ciphers
      ciphers_part =
          subst (λ (k : ℕ). u16s_at b (o + 2) k ≡ ok ciphers) (omega arith)
            (u16s_at-drop b (o + 2) ciphers from_comp p.ciphers_fit dcs (omega (arith, whole)))

      q : ℕ
      q = o + 2 + 2 * length ciphers

      dp : drop q b ≡ from_comp
      dp =
          subst (λ (k : ℕ). drop (o + 2 + k) b ≡ from_comp) (length-be16s ciphers)
            (drop-next b (o + 2) (be16s ciphers) from_comp dcs)

      comp : byte_at b q ≡ ok (length compression)
      comp = byte_at-drop b q _ _ dp

      dm : drop (q + 1) b ≡ compression ++ block_part
      dm = drop-next b q (length compression ∷ []) _ dp

      comp_part : slice b (q + 1) (q + 1 + length compression) ≡ compression
      comp_part = slice-drop b (q + 1) compression block_part dm

      db : drop (q + 1 + length compression) b ≡ block_part
      db = drop-next b (q + 1) compression block_part dm

      block : extension_block b (q + 1 + length compression) ≡ ok items
      block =
          extension_block-encode b (q + 1 + length compression) items w db (omega (arith, whole))
