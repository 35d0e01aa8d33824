-- ===== src/RoundTrip/Sent.antt =====
-- Which extensions the builder puts on the wire, and what padding does to them.
use browserfp.Prelude.{
  ℕ, ◌-◌, ◌≡◌, refl, sym, ap, ◌∙◌, Bool, true, false, not, ◌&&◌, List, [], ◌∷◌, ◌++◌, append-nil,
  append_assoc, filter, filter-append, All, All-append, All-filter, replicate, leb, ltb, Bool-cases,
  inl, inr, ok, ok_bind, ok-injective, Option,
}
use browserfp.ClientHello.Parse.{Extension, ids}
use browserfp.ClientHello.Fingerprint.{Fingerprint}
use browserfp.Builder.Vec.{pack_extension}
use browserfp.Builder.Draw.{Secrets, draw_bind, lift_bind}
use browserfp.Builder.Regrease.{Grease}
use browserfp.Builder.Permute.{padding_ext}
use browserfp.Builder.Padding.{hello_len, pad, pad_lo, pad_to}
use browserfp.Builder.Build.{Options, extension_body, extension_bytes}
use browserfp.RoundTrip.Blocks.{
  encode, Fits, pack_extension-eq_ok, ext_bytes_wo_padding-encode, is_padding,
}

pub encode-append : (xs ys : List Extension) → encode (xs ++ ys) ≡ encode xs ++ encode ys
unfolding encode
encode-append [] ys = refl
encode-append ((e, b) ∷ xs) ys = rw (encode-append xs ys, append_assoc b (encode xs) (encode ys))

abbrev pub real : List Extension → List Extension
real = filter (λ x. not (is_padding x))

-- The block that is built is one entry for each extension of the order, in that order.
pub extension_bytes-eq_ok :
    (rng : Secrets) (args : Options) (bodies : List (ℕ × List ℕ)) (grease : Option Grease)
    (order : List ℕ) (i : ℕ) {r : List ℕ × ℕ}
    → extension_bytes rng args bodies grease order i ≡ ok r
    → (items : List Extension) × All Fits items × (ids items ≡ order) × (r.0 ≡ encode items)
unfolding extension_bytes encode
extension_bytes-eq_ok rng args bodies grease [] i h =
    ([], tt, refl, ap (λ (p : List ℕ × ℕ). p.0) (sym (ok-injective h)))
extension_bytes-eq_ok rng args bodies grease (e ∷ es) i h =
    draw_bind (extension_body rng args bodies grease e) _ i h λ body j eb h1.
      lift_bind (pack_extension e body) _ j h1 λ entry ee h2.
        draw_bind (extension_bytes rng args bodies grease es) _ j h2 λ rest k er h3.
          let (items, w, q, z) = extension_bytes-eq_ok rng args bodies grease es j er in
          let (f, spell) = pack_extension-eq_ok e body ee in
          (
            (e, body) ∷ items,
            (f, w),
            ap (λ t. e ∷ t) q,
            ap (λ (p : List ℕ × ℕ). p.0) (sym (ok-injective h3))
                ∙ ap (λ t. entry ++ t) z
                ∙ spell (encode items),
          )

-- Padding is dropped and may be put at the end; nothing else changes. Verbatim nothing changes.
pub record Repadded (verbatim : Bool) (items : List Extension) (padded : List ℕ) : Type 0 where
  pub sent : List Extension
  pub fits : All Fits sent
  pub spelled : padded ≡ encode sent
  pub same_real : real sent ≡ real items
  pub same : verbatim ≡ true → sent ≡ items

real-real : (xs : List Extension) → real (real xs) ≡ real xs
real-real [] = refl
real-real (x ∷ xs) = elim (Bool-cases (is_padding x)) [
  | inl p ↦ rw p (real-real xs)
  | inr p ↦ rw (p, p) (ap (λ t. x ∷ t) (real-real xs))
]

real-padding :
    (items : List Extension) (zs : List ℕ)
    → real (real items ++ ((padding_ext, zs) ∷ [])) ≡ real items
real-padding items zs =
    filter-append _ (real items) ((padding_ext, zs) ∷ []) ∙ append-nil _ ∙ real-real items

encode_one :
    (e : ℕ) (b : List ℕ) {x : List ℕ}
    → pack_extension e b ≡ ok x
    → Fits (e, b) × (x ≡ encode ((e, b) ∷ []))
unfolding encode
encode_one e b {x} h =
    let (f, spell) = pack_extension-eq_ok e b h in (f, sym (append-nil x) ∙ spell [])

pub pad-eq_ok :
    (verbatim : Bool) (profile : Fingerprint) (items : List Extension) {padded : List ℕ}
    → All Fits items
    → pad verbatim profile (encode items) ≡ ok padded
    → Repadded verbatim items padded
unfolding pad
pad-eq_ok true profile items w h = record {
  sent = items;
  fits = w;
  spelled = sym (ok-injective h);
  same_real = refl;
  same = λ _. refl;
}
pad-eq_ok false profile items {padded} w h =
    let fixed = hello_len profile (encode (real items)) in
    let fits_real = All-filter Fits (λ x. not (is_padding x)) items w in
    let h' = rw (ext_bytes_wo_padding-encode items w) at h in
    elim (Bool-cases (leb pad_lo fixed && ltb fixed pad_to)) [
      | inl t ↦
          ok_bind (pack_extension padding_ext (replicate (pad_to - fixed - 4) 0))
            (λ p. ok (encode (real items) ++ p)) (rw t at h')
            λ p ep h''.
              let zs = replicate (pad_to - fixed - 4) 0 in
              let (f, spell) = encode_one padding_ext zs ep in
              record {
                sent = real items ++ ((padding_ext, zs) ∷ []);
                fits = All-append Fits (real items) ((padding_ext, zs) ∷ []) fits_real (f, tt);
                spelled =
                    sym (ok-injective h'')
                    ∙ ap (λ t. encode (real items) ++ t) spell
                    ∙ sym (encode-append (real items) ((padding_ext, zs) ∷ []));
                same_real = real-padding items zs;
                same = λ e. absurd (cc);
              }
      | inr t ↦ record {
        sent = real items;
        fits = fits_real;
        spelled = sym (ok-injective (rw t at h'));
        same_real = real-real items;
        same = λ e. absurd (cc);
      }
    ]
