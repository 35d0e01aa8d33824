-- ===== src/Derive/Dropped.antt =====
-- Proofs about `apply_delta` of oracle/derive.py, apart from its filters: which numbers go, how often the
-- others occur, and in which order.
use mathlib.Core.List.{Sublistᴰ}
use browserfp.Prelude.{
  ℕ, suc, ◌≡◌, refl, sym, ap, ◌∙◌, Bool, true, false, not, ◌&&◌, ◌||◌, List, [], ◌∷◌, map, filter,
  elem, ◌==◌, if◌then◌else◌, none, Bool-cases, inl, inr, arith,
}
use browserfp.Text.{Text}
use browserfp.ClientHello.Fingerprint.{Fingerprint}
use browserfp.ClientHello.Ja.{ja4}
use browserfp.Derive.Delta.{Delta, dropped, kept_curves, profile_fields, apply_delta}

-- How often a number occurs.
abbrev pub count : ℕ → List ℕ → ℕ
count x [] = 0
count x (y ∷ ys) = let rest = count x ys in if x == y then suc rest else rest

-- The second list is the first in its order, without `x` if `x` goes, and else with `x` as often.
abbrev pub IsWithout : Bool → ℕ → (xs ys : List ℕ) → Type 0
IsWithout goes x xs ys = Sublistᴰ ys xs × (count x ys ≡ (if goes then 0 else count x xs))

-- The extensions signed_certificate_timestamp and encrypted_client_hello.
abbrev pub goes : Delta → ℕ → Bool
goes delta e = (delta.drop_sct && e == 0x0012) || (delta.drop_ech && e == 0xFE0D)

-- The group X25519MLKEM768.
abbrev pub goes_curve : Delta → ℕ → Bool
goes_curve delta c = delta.drop_mlkem && c == 0x11EC

filter-sublist {ℓ} : {A : Type ℓ} (keep : A → Bool) (xs : List A) → Sublistᴰ (filter keep xs) xs
filter-sublist keep [] = Sublistᴰ.slnil
filter-sublist keep (x ∷ xs) = elim (Bool-cases (keep x)) [
  | inl e ↦ rw e (Sublistᴰ.cons-cons refl (filter-sublist keep xs))
  | inr n ↦ rw n (Sublistᴰ.cons (filter-sublist keep xs))
]

filter_all {ℓ} : {A : Type ℓ} (xs : List A) → Sublistᴰ xs xs
filter_all [] = Sublistᴰ.slnil
filter_all (x ∷ xs) = Sublistᴰ.cons-cons refl (filter_all xs)

count-filter :
    (keep : ℕ → Bool) (x : ℕ) (ys : List ℕ)
    → count x (filter keep ys) ≡ (if not (keep x) then 0 else count x ys)
count-filter keep x [] = elim (Bool-cases (keep x)) [ inl e ↦ rw e refl | inr n ↦ rw n refl ]
count-filter keep x (y ∷ ys) = elim (Bool-cases (x == y)) [
  | inl q ↦
      let same : x ≡ y = ground (arith, q) in
      elim (Bool-cases (keep x)) [
        | inl e ↦
            let k : keep y ≡ true = ap keep (sym same) ∙ e in
            let ih = count-filter keep x ys in let n = rw e at ih in rw (e, k, q) (ap suc n)
        | inr n ↦
            let k : keep y ≡ false = ap keep (sym same) ∙ n in
            let ih = count-filter keep x ys in let m = rw n at ih in rw (n, k) m
      ]
  | inr q ↦ elim (Bool-cases (keep y)) [
    | inl k ↦ rw (k, q) (count-filter keep x ys)
    | inr k ↦ rw (k, q) (count-filter keep x ys)
  ]
]

map-filter :
    (keep : ℕ → Bool) (bs : List (ℕ × Text))
    → map (λ (b : ℕ × Text). b.0) (filter (λ (b : ℕ × Text). keep b.0) bs)
      ≡ filter keep (map (λ (b : ℕ × Text). b.0) bs)
map-filter keep [] = refl
map-filter keep ((k, v) ∷ bs) = elim (Bool-cases (keep k)) [
  | inl e ↦ rw e (ap (λ t. k ∷ t) (map-filter keep bs))
  | inr n ↦ rw n (map-filter keep bs)
]

-- The list `drop_ext` has the extensions that go, and no other.
elem-dropped : (delta : Delta) (e : ℕ) → not (not (elem e (dropped delta))) ≡ goes delta e
unfolding dropped
elem-dropped delta e = elim (Bool-cases delta.drop_sct) [
  | inl s ↦ elim (Bool-cases delta.drop_ech) [
    | inl t ↦ rw (s, t) (twice (e == 0x0012) (e == 0xFE0D))
    | inr t ↦ rw (s, t) (once (e == 0x0012))
  ]
  | inr s ↦ elim (Bool-cases delta.drop_ech) [
    | inl t ↦ rw (s, t) (last (e == 0xFE0D))
    | inr t ↦ rw (s, t) refl
  ]
]
  where
    twice : (a b : Bool) → not (not (a || (b || false))) ≡ (a || b)
    twice true b = refl
    twice false true = refl
    twice false false = refl

    once : (a : Bool) → not (not (a || false)) ≡ (a || false)
    once true = refl
    once false = refl

    last : (a : Bool) → not (not (a || false)) ≡ a
    last true = refl
    last false = refl

filter-IsWithout :
    (delta : Delta) (e : ℕ) (xs : List ℕ)
    → IsWithout (goes delta e) e xs (filter (λ x. not (elem x (dropped delta))) xs)
filter-IsWithout delta e xs = (
  filter-sublist _ xs,
  count-filter (λ x. not (elem x (dropped delta))) e xs
      ∙ ap (λ b. if b then 0 else count e xs) (elem-dropped delta e),
)

kept_curves-IsWithout :
    (delta : Delta) (c : ℕ) (cs : List ℕ)
    → IsWithout (goes_curve delta c) c cs (kept_curves delta cs)
unfolding kept_curves
kept_curves-IsWithout delta c cs = elim (Bool-cases delta.drop_mlkem) [
  | inl e ↦ rw e (
    filter-sublist _ cs,
    count-filter (λ d. not (d == 0x11EC)) c cs
        ∙ ap (λ b. if b then 0 else count c cs) (not-not (c == 0x11EC)),
  )
  | inr n ↦ rw n (filter_all cs, refl)
]
  where
    not-not : (a : Bool) → not (not a) ≡ a
    not-not true = refl
    not-not false = refl

-- Deriving a profile takes signed_certificate_timestamp and encrypted_client_hello out of both lists of
-- extensions and out of the bodies, and X25519MLKEM768 out of the curves, each exactly if the difference
-- says so; every other number stays as often as it was, the order and the kept bodies stay; the JA4 is
-- that of the ciphers, the extensions that stay and the further fields, without SNI; and nothing else
-- changes.
pub apply_delta_lem :
    (sha256 : Text → Text) (tls : Fingerprint) (delta : Delta) (e c : ℕ)
    → IsWithout
        (goes delta e)
        e
        tls.extensions_ordered
        (apply_delta sha256 tls delta).extensions_ordered
      × IsWithout (goes delta e) e tls.raw_extensions (apply_delta sha256 tls delta).raw_extensions
      × IsWithout
          (goes delta e)
          e
          (map (λ (b : ℕ × Text). b.0) tls.extension_bodies)
          (map (λ (b : ℕ × Text). b.0) (apply_delta sha256 tls delta).extension_bodies)
      × Sublistᴰ (apply_delta sha256 tls delta).extension_bodies tls.extension_bodies
      × IsWithout (goes_curve delta c) c tls.curves (apply_delta sha256 tls delta).curves
      × ((apply_delta sha256 tls delta).ja4
          ≡ ja4 sha256 (record {
            sni = none;
            ciphers = tls.ciphers;
            extensions = (apply_delta sha256 tls delta).extensions_ordered;
            sig_algs = tls.sig_algs;
            alpn = tls.alpn;
            supported_versions = tls.supported_versions;
            client_version = tls.client_version;
          }))
      × (record (apply_delta sha256 tls delta) {
        extensions_ordered = tls.extensions_ordered;
        raw_extensions = tls.raw_extensions;
        extension_bodies = tls.extension_bodies;
        curves = tls.curves;
        ja4 = tls.ja4;
      }
          ≡ tls)
unfolding apply_delta profile_fields
apply_delta_lem sha256 tls delta e c = (
  filter-IsWithout delta e tls.extensions_ordered,
  filter-IsWithout delta e tls.raw_extensions,
  rw (map-filter (λ x. not (elem x (dropped delta))) tls.extension_bodies)
      (filter-IsWithout delta e (map (λ (b : ℕ × Text). b.0) tls.extension_bodies)),
  filter-sublist _ tls.extension_bodies,
  kept_curves-IsWithout delta c tls.curves,
  refl,
  refl,
)
