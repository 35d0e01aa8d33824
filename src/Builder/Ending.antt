-- ===== src/Builder/Ending.antt =====
-- How `build_client_hello` of oracle/chbuild.py ends without a permutation: a rule for each way to build a
-- computation that draws, and the parts.
use browserfp.Prelude.{
  ℕ, ◌≡◌, refl, Bool, true, false, List, [], ◌∷◌, length, lookup, get_or, ◌==◌, if◌then◌else◌,
  Option, none, some, maybe, Option-cases, inl, inr, Result, ok,
}
use browserfp.Prelude.Ends.{Ends, Ends-ok, Ends-bind, ends_rules}
use browserfp.Bytes.Range.{reads_end}
use browserfp.ClientHello.Grease.{is_grease}
use browserfp.ClientHello.Fingerprint.{Fingerprint}
use browserfp.Builder.Draw.{Secrets, Draw, ◌>>=◌, lift, draw_bytes, draw_below}
use browserfp.Builder.Regrease.{Grease, pick_grease, regrease_u16_body}
use browserfp.Builder.KeyShare.{parse_key_share, share_entry, share_entries, build_key_share}
use browserfp.Builder.Ech.{ech_family, drawn_len, ech_payload_len, grease_ech}
use browserfp.Builder.Assemble.{sni_body, hrr_body}
use browserfp.Builder.Build.{
  Options, bytes_or_draw, session_or_draw, grease_or_pick, extension_body, extension_bytes,
  extension_order, build_client_hello, group_of,
}
use browserfp.Builder.Packing.{
  pack16-Ends, pack16s-Ends, vec-Ends, pack_extension-Ends, decode_bodies-Ends, after_first-Ends,
  sni_body-Ends, hrr_body-Ends, pad-Ends, hello_bytes-Ends, record_bytes-Ends,
}

regrease_u16_body-Ends :
    (body : List ℕ) (prefix_len new : ℕ) → Ends (regrease_u16_body body prefix_len new)
unfolding regrease_u16_body
regrease_u16_body-Ends body prefix_len new = search (ends_rules, pack16s-Ends)

pub record IsEnding {ℓ} {A : Type ℓ} (d : Draw A) : Type ℓ where
  pub ending : (i : ℕ) → Ends (d i)

module _ {ℓ κ} {A : Type ℓ} {B : Type κ} where
  pub bind-IsEnding :
      (m : Draw A) (f : A → Draw B) → IsEnding m → ((a : A) → IsEnding (f a)) → IsEnding (m >>= f)
  bind-IsEnding m f hm hf = record {
    ending = λ i. Ends-bind (m i) _ (hm.ending i) (λ r e. (hf r.0).ending r.1);
  }

module _ {ℓ} {A : Type ℓ} where
  pub lift-IsEnding : (r : Result A) → Ends r → IsEnding (lift r)
  lift-IsEnding r h = record { ending = λ i. Ends-bind r _ h (λ a e. Ends-ok (a, i)) }

  if-IsEnding : (b : Bool) (m k : Draw A) → IsEnding m → IsEnding k → IsEnding (if b then m else k)
  if-IsEnding true m k hm hk = hm
  if-IsEnding false m k hm hk = hk

module _ (rng : Secrets) where
  draw_bytes-IsEnding : (n : ℕ) → IsEnding (draw_bytes rng n)
  draw_bytes-IsEnding n = record { ending = λ i. Ends-ok _ }

  draw_below-IsEnding : (n : ℕ) → IsEnding (draw_below rng n)
  draw_below-IsEnding n = record { ending = λ i. Ends-ok _ }

  ruleset draws_end = (
    bind-IsEnding, lift-IsEnding, if-IsEnding, draw_bytes-IsEnding, draw_below-IsEnding, reads_end,
    vec-Ends, pack16-Ends,
  )

  pub pick_grease-IsEnding : (verbatim : Bool) → IsEnding (pick_grease rng verbatim)
  unfolding pick_grease
  pick_grease-IsEnding true = search draws_end
  pick_grease-IsEnding false = search draws_end depth 12

  grease_or_pick-IsEnding :
      (verbatim : Bool) (g : Option Grease) → IsEnding (grease_or_pick rng verbatim g)
  unfolding grease_or_pick
  grease_or_pick-IsEnding verbatim none = pick_grease-IsEnding verbatim
  grease_or_pick-IsEnding verbatim (some g) = search draws_end

  bytes_or_draw-IsEnding : (n : ℕ) (o : Option (List ℕ)) → IsEnding (bytes_or_draw rng n o)
  unfolding bytes_or_draw
  bytes_or_draw-IsEnding n none = draw_bytes-IsEnding n
  bytes_or_draw-IsEnding n (some []) = draw_bytes-IsEnding n
  bytes_or_draw-IsEnding n (some (b ∷ bs)) = search draws_end

  session_or_draw-IsEnding : (n : ℕ) (o : Option (List ℕ)) → IsEnding (session_or_draw rng n o)
  unfolding session_or_draw
  session_or_draw-IsEnding n none = draw_bytes-IsEnding n
  session_or_draw-IsEnding n (some s) = search draws_end

  drawn_len-IsEnding : (fam : List ℕ) (enc_len : ℕ) → IsEnding (drawn_len rng fam enc_len)
  drawn_len-IsEnding fam enc_len = search draws_end depth 12

  ech_payload_len-IsEnding :
      (golden : List ℕ) (enc_len : ℕ) (given : Option ℕ) (verbatim : Bool)
      → IsEnding (ech_payload_len rng golden enc_len given verbatim)
  unfolding ech_payload_len
  ech_payload_len-IsEnding golden enc_len given true = search draws_end
  ech_payload_len-IsEnding golden enc_len (some n) false = search draws_end
  ech_payload_len-IsEnding golden enc_len none false =
      elim (Option-cases (ech_family (length golden))) [
        | inl e ↦ rw (e, ech_payload_len) (search draws_end)
        | inr (fam, e) ↦ rw (e, ech_payload_len) (drawn_len-IsEnding fam enc_len)
      ]

  grease_ech-IsEnding :
      (golden : List ℕ) (given : Option ℕ) (verbatim : Bool)
      → IsEnding (grease_ech rng golden given verbatim)
  unfolding grease_ech
  grease_ech-IsEnding golden given verbatim = search (draws_end, ech_payload_len-IsEnding) depth 30

  module _ (golden : List ℕ) (key_shares : List (ℕ × List ℕ)) (grease_group : Option ℕ) where
    share_entry-IsEnding :
        (group plen : ℕ) → IsEnding (share_entry rng golden key_shares grease_group group plen)
    unfolding share_entry
    share_entry-IsEnding group plen = elim (Option-cases (lookup group key_shares)) [
      | inl e ↦ rw (e, share_entry) (search (draws_end, after_first-Ends) depth 12)
      | inr (k, e) ↦ rw (e, share_entry) (search draws_end depth 12)
    ]

    share_entries-IsEnding :
        (shape : List (ℕ × ℕ)) → IsEnding (share_entries rng golden key_shares grease_group shape)
    unfolding share_entries
    share_entries-IsEnding [] = search draws_end
    share_entries-IsEnding ((group, plen) ∷ rest) =
        bind-IsEnding _ _ (share_entry-IsEnding group plen) (λ p.
          bind-IsEnding _ _ (lift-IsEnding _ (pack16-Ends p.0)) (λ id.
            bind-IsEnding _ _ (lift-IsEnding _ (vec-Ends p.1 2)) (λ body.
              bind-IsEnding _ _ (share_entries-IsEnding rest)
                (λ more. lift-IsEnding _ (Ends-ok _)))))

    build_key_share-IsEnding : IsEnding (build_key_share rng golden key_shares grease_group)
    unfolding build_key_share
    build_key_share-IsEnding = by_shape (parse_key_share golden) refl
      where
        by_shape :
            (shape : List (ℕ × ℕ))
            → parse_key_share golden ≡ shape
            → IsEnding (build_key_share rng golden key_shares grease_group)
        by_shape [] e = rw (e, build_key_share) (search draws_end)
        by_shape (s ∷ shape) e =
            rw (e, build_key_share) (search (draws_end, share_entries-IsEnding) depth 12)

  module _ (args : Options) (bodies : List (ℕ × List ℕ)) (grease : Option Grease) where
    regreased_body-Ends :
        (golden : List ℕ) (prefix_len : ℕ) (new : Grease → ℕ)
        → Ends (maybe grease (λ g. regrease_u16_body golden prefix_len (new g)) (ok golden))
    regreased_body-Ends golden prefix_len new = elim (Option-cases grease) [
      | inl q ↦ rw q (Ends-ok golden)
      | inr (g, q) ↦ rw q (regrease_u16_body-Ends golden prefix_len (new g))
    ]

    extension_body-IsEnding : (e : ℕ) → IsEnding (extension_body rng args bodies grease e)
    unfolding extension_body
    extension_body-IsEnding e = if-IsEnding (is_grease e) _ _ (lift-IsEnding _ (Ends-ok golden)) (
        if-IsEnding (e == 0x0000) _ _ sni_case (
          if-IsEnding (e == 0x0033) _ _ share_case (
            if-IsEnding (e == 0x000a) _ _
              (lift-IsEnding _ (regreased_body-Ends golden 2 (λ g. g.group)))
              (if-IsEnding (e == 0x002b) _ _
                (lift-IsEnding _ (regreased_body-Ends golden 1 (λ g. g.version)))
                (if-IsEnding (e == 0xfe0d) _ _ ech_case (lift-IsEnding _ (Ends-ok golden)))))))
      where
        golden : List ℕ
        golden = get_or [] (lookup e bodies)

        sni_case :
            IsEnding (elim args.sni [ some name ↦ lift (sni_body name) | none ↦ lift (ok golden) ])
        sni_case = elim (Option-cases args.sni) [
          | inl q ↦ rw q (search draws_end)
          | inr (name, q) ↦ rw q (search (draws_end, sni_body-Ends))
        ]

        share_case : IsEnding (elim args.hrr_group [
          | some h ↦ lift (hrr_body h.0 h.1)
          | none ↦ build_key_share rng golden args.key_shares (group_of grease)
        ])
        share_case = elim (Option-cases args.hrr_group) [
          | inl q ↦ rw q (build_key_share-IsEnding golden args.key_shares (group_of grease))
          | inr (h, q) ↦ rw q (search (draws_end, hrr_body-Ends))
        ]

        ech_case : IsEnding (elim args.ech_body [
          | some ech ↦ lift (ok ech)
          | none ↦ grease_ech rng golden none args.verbatim
        ])
        ech_case = elim (Option-cases args.ech_body) [
          | inl q ↦ rw q (grease_ech-IsEnding golden none args.verbatim)
          | inr (b, q) ↦ rw q (search draws_end)
        ]

    extension_bytes-IsEnding : (es : List ℕ) → IsEnding (extension_bytes rng args bodies grease es)
    unfolding extension_bytes
    extension_bytes-IsEnding [] = lift-IsEnding _ (Ends-ok _)
    extension_bytes-IsEnding (e ∷ es) = bind-IsEnding _ _ (extension_body-IsEnding e) (λ body.
        bind-IsEnding _ _ (lift-IsEnding _ (pack_extension-Ends e body)) (λ entry.
          bind-IsEnding _ _ (extension_bytes-IsEnding es) (λ rest. lift-IsEnding _ (Ends-ok _))))

  -- Without a permutation there is no loop that could run out of fuel.
  pub build_client_hello-IsEnding :
      (sha256 : List ℕ → List ℕ) (fuel : ℕ) (profile : Fingerprint) (args : Options)
      → args.permute ≡ false
      → IsEnding (build_client_hello sha256 fuel rng profile args)
  unfolding build_client_hello extension_order
  build_client_hello-IsEnding sha256 fuel profile args hp = rw hp (
      search
        (
          draws_end, decode_bodies-Ends, grease_or_pick-IsEnding, extension_bytes-IsEnding,
          pad-Ends, bytes_or_draw-IsEnding, session_or_draw-IsEnding, hello_bytes-Ends,
          record_bytes-Ends,
        )
        depth 40)
