-- ===== src/RoundTrip/Stable.antt =====
-- The order of extensions that oracle/chbuild.py draws for one connection or another.
use mathlib.Core.List.{Perm}
use mathlib.Core.List.Perm
use browserfp.Prelude.{
  ℕ, ◌≡◌, refl, subst, not, ◌&&◌, List, [], ◌∷◌, Option, some, none, Bool-cases, inl, inr, ok,
  ok-injective, arith,
}
use browserfp.Prelude.Sort.{filter-perm}
use browserfp.ClientHello.Grease.{is_grease, drop_grease}
use browserfp.Builder.Regrease.{Grease, regrease_list}
use browserfp.Builder.Regrease.Laws.{IsFresh, drop_grease-regrease_list}
use browserfp.Builder.Permute.Shuffle.{permute_extensions-perm}
use browserfp.Builder.Assemble.{insert_sni}
use browserfp.Builder.Build.{Options, regreased, seed, extension_order}

-- No GREASE values, or a set as `pick_grease` returns it.
abbrev pub FreshOrNone : Option Grease → Type 0
FreshOrNone none = Unit
FreshOrNone (some g) = IsFresh g

pub drop_grease-order :
    (grease : Option Grease) (es : List ℕ)
    → FreshOrNone grease
    → drop_grease (regreased grease (λ g xs. regrease_list xs g.ext) es) ≡ drop_grease es
drop_grease-order none es f = refl
drop_grease-order (some g) es f = rw f.two (
    drop_grease-regrease_list (f.first ∷ f.second ∷ []) (omega arith)
      (f.first_grease, (f.second_grease, tt)) es)

pub drop_grease-ciphers :
    (grease : Option Grease) (cs : List ℕ)
    → FreshOrNone grease
    → drop_grease (regreased grease (λ g xs. regrease_list xs (g.cipher ∷ [])) cs) ≡ drop_grease cs
drop_grease-ciphers none cs f = refl
drop_grease-ciphers (some g) cs f =
    drop_grease-regrease_list (g.cipher ∷ []) (omega arith) (f.cipher_grease, tt) cs

-- With no GREASE values or a set as `pick_grease` returns it, and whatever permutation a connection
-- draws, the extensions of an order that are no GREASE are
-- those of the profile with the SNI, up to their order.
pub extension_order-perm :
    (sha256 : List ℕ → List ℕ) (fuel : ℕ) (args : Options) (grease : Option Grease)
    (raw order : List ℕ)
    → FreshOrNone grease
    → extension_order sha256 fuel args grease raw ≡ ok order
    → Perm (drop_grease order) (drop_grease (insert_sni args.sni raw))
unfolding extension_order
extension_order-perm sha256 fuel args grease raw order f h =
    let plain = insert_sni args.sni raw in
    let es = regreased grease (λ g xs. regrease_list xs g.ext) plain in
    let same = drop_grease-order grease plain f in
    subst (λ t. Perm (drop_grease order) t) same
      (filter-perm (λ v. not (is_grease v))
        (elim (Bool-cases (args.permute && not args.verbatim)) [
          | inl p ↦ permute_extensions-perm sha256 (seed args.random32) fuel es order (rw p at h)
          | inr p ↦ let q : es ≡ order = ok-injective (rw p at h) in rw q (Perm.refl order)
        ]))
