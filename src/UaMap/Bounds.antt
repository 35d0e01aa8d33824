-- ===== src/UaMap/Bounds.antt =====
-- The versions that `parse_ua` of oracle/uamap.py gives.
use browserfp.Prelude.{
  ℕ, ◌≤◌, ◌≡◌, ◌≢◌, refl, sym, ap, subst, ◌∙◌, Bool, true, false, not, List, [], ◌∷◌, ◌++◌, All,
  ltb, if◌then◌else◌, Option, some, none, maybe, arith,
}
use browserfp.Text.{Text, text}
use browserfp.Pattern.{is_some, literal, search_for, contains_any, without_suffix}
use browserfp.UaMap.UserAgent.{
  ua_rules, mobile_marks, mobile_suffix, is_derived, ios_third_party, by_rules, chromium_engine,
  parse_ua,
}

-- A version fits 16 bits if the brand is not derived from Chromium.
record IsBounded (o : Option (Text × ℕ)) : Type 0 where
  bounded : (b : Text) (v : ℕ) → o ≡ some (b, v) → chromium_engine b ≡ none → v ≤ 65535

IsBounded-none : IsBounded none
IsBounded-none = record { bounded = λ b v h. absurd (cc) }

IsBounded-if :
    (c : Bool) (x y : Option (Text × ℕ))
    → (c ≡ true → IsBounded x)
    → (c ≡ false → IsBounded y)
    → IsBounded (if c then x else y)
IsBounded-if true x y h k = h refl
IsBounded-if false x y h k = k refl

IsBounded-maybe :
    (o : Option ℕ) (f : ℕ → Option (Text × ℕ)) (b : Option (Text × ℕ))
    → ((a : ℕ) → IsBounded (f a))
    → IsBounded b
    → IsBounded (maybe o f b)
IsBounded-maybe none f b h k = k
IsBounded-maybe (some a) f b h k = h a

some_parts : (p q : Text × ℕ) → some p ≡ some q → (p.0 ≡ q.0) × (p.1 ≡ q.1)
some_parts p q h =
    let e : p ≡ q = cc in (ap (λ (r : Text × ℕ). r.0) e, ap (λ (r : Text × ℕ). r.1) e)

abbrev Named : Bool → Text × (Text → Option ℕ) → Type 0
Named mobile (brand, pattern) =
    is_derived brand ≡ true
    → chromium_engine (if mobile then brand ++ mobile_suffix else brand) ≢ none

by_rules-IsBounded :
    (rules : List (Text × (Text → Option ℕ))) (mobile : Bool) (ua : Text)
    → All (Named mobile) rules
    → IsBounded (by_rules rules mobile ua)
unfolding by_rules
by_rules-IsBounded [] mobile ua w = IsBounded-none
by_rules-IsBounded ((brand, pattern) ∷ rules) mobile ua w =
    let name = if mobile then brand ++ mobile_suffix else brand in
    IsBounded-maybe (search_for pattern ua) _ _
      (λ ver.
        IsBounded-if (ltb 65535 ver) _ _ (λ _. IsBounded-none)
          λ small.
            IsBounded-if (is_derived brand) _ _
              (λ d. record {
                bounded = λ b v h n.
                    absurd
                      (w.0 d (subst (λ t. chromium_engine t ≡ none) (sym (some_parts _ _ h).0) n));
              })
              (λ _. record {
                bounded =
                    λ b v h n. let q : ver ≡ v = (some_parts _ _ h).1 in ground (arith, small, q);
              }))
      (by_rules-IsBounded rules mobile ua w.1)

rules-Named : (mobile : Bool) → All (Named mobile) ua_rules
unfolding chromium_engine without_suffix
rules-Named true = ((λ d e. cc), ((λ d e. cc), ((λ d e. cc), ((λ d e. cc), ((λ d e. cc), tt)))))
rules-Named false = ((λ d e. cc), ((λ d e. cc), ((λ d e. cc), ((λ d e. cc), ((λ d e. cc), tt)))))

-- Unless a browser on iOS with another name sends it, a User-Agent of a brand that is not derived from
-- Chromium has a version of 16 bits or none.
pub parse_ua-bound :
    (ua : Text) (b : Text) (v : ℕ)
    → ios_third_party false ua ≡ false
    → parse_ua ua ≡ some (b, v)
    → chromium_engine b ≡ none
    → v ≤ 65535
unfolding parse_ua
parse_ua-bound ua b v ios h n =
    (IsBounded-if (not (is_some (literal (text "Mozilla/") ua))) _ _ (λ _. IsBounded-none)
        (λ _.
          IsBounded-if (ios_third_party false ua) _ _ (λ t. absurd (let q = sym ios ∙ t in cc))
            (λ _.
              by_rules-IsBounded ua_rules (contains_any mobile_marks ua) ua
                (rules-Named (contains_any mobile_marks ua))))).bounded
      b v h n
