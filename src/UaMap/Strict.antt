-- ===== src/UaMap/Strict.antt =====
-- Proofs about `strict` in `lookup` of oracle/uamap.py.
use browserfp.Prelude.{
  get_or, ◌≢◌, subst, ℕ, ◌≡◌, refl, sym, ap, ◌∙◌, Bool, true, false, ◌&&◌, [], ◌∷◌, if◌then◌else◌,
  Option, some, none, lookup, maybe, maybe-related, Result, ok, err, stuck, ◌>>=◌, ok_bind,
  ok-injective,
}
use browserfp.Text.{Text}
use browserfp.Pattern.{without_suffix, is_some, same_text}
use browserfp.Match.Matcher.{Entry}
use browserfp.UaMap.UserAgent.{mobile_suffix, chromium_engine, parse_ua}
use browserfp.UaMap.Table.{Row, Table, Mapper, of_brand, span_of, nearest_in, lower_row, upper_row}
use browserfp.UaMap.Lookup.{
  Confidence, exact, same_seg, fallback, unparsed, no_brand, no_version, Reply, Step, answered,
  going, names_of, shared_source, short_names, far_reply, as_desktop, far, between, last_step,
  then_last, then_engine, engine_step, mobile_step, rows, lookup_brand, lookup_ua,
}

-- What strictness takes away from a reply.
abbrev pub withdrawn : Confidence → Option Text → Option Text
withdrawn fallback profile = none
withdrawn _ profile = profile

abbrev pub withdraw : Reply → Reply
withdraw r = record r { profile = withdrawn r.confidence r.profile }

-- The strict outcome is the other with the profile withdrawn.
abbrev pub Withdraws : Result Reply → Result Reply → Type 0
Withdraws s r = s ≡ (r >>= λ x. ok (withdraw x))

Withdraws-bind :
    {A : Type 0} (m : Result A) (f g : A → Result Reply)
    → ((a : A) → Withdraws (f a) (g a))
    → Withdraws (m >>= f) (m >>= g)
Withdraws-bind (ok a) f g h = h a
Withdraws-bind (err e) f g h = refl
Withdraws-bind stuck f g h = refl

Withdraws-if :
    (b : Bool) (s r x y : Result Reply)
    → Withdraws s r
    → Withdraws x y
    → Withdraws (if b then s else x) (if b then r else y)
Withdraws-if true s r x y h k = h
Withdraws-if false s r x y h k = k

far_reply-Withdraws :
    (is_brand : Bool) (brand : Text) (ver near : ℕ) (rec : Entry)
    → far_reply is_brand true brand ver near rec
      ≡ withdraw (far_reply is_brand false brand ver near rec)
far_reply-Withdraws true brand ver near rec = refl
far_reply-Withdraws false brand ver near rec = refl

far-Withdraws :
    (brand : Text) (ver : ℕ) (derived : Bool) (row : ℕ × Row)
    → Withdraws (far true brand ver derived row) (far false brand ver derived row)
unfolding far
far-Withdraws brand ver derived row =
    Withdraws-bind (short_names (names_of row.1.0)) _ _
      λ names. ap ok (far_reply-Withdraws _ brand ver row.0 row.1.0)

between-Withdraws :
    (brand : Text) (ver : ℕ) (derived : Bool) (lo hi : Option (ℕ × Row))
    → Withdraws (between true brand ver derived lo hi) (between false brand ver derived lo hi)
unfolding between
between-Withdraws brand ver derived none none = refl
between-Withdraws brand ver derived none (some hi) = far-Withdraws brand ver derived hi
between-Withdraws brand ver derived (some lo) none = far-Withdraws brand ver derived lo
between-Withdraws brand ver derived (some (v, (rlo, klo))) (some (w, (rhi, khi))) =
    Withdraws-if (same_text klo khi && shared_source (names_of rlo) (names_of rhi)) _ _ _ _ refl
      (far-Withdraws brand ver derived (w, (rhi, khi)))

-- A reply that a step gives before the last one does not depend on strictness: it never only crosses
-- segments.
abbrev settled : Step → Step
settled (answered r) = answered (withdraw r)
settled (going table) = going table

record IsFirm (s : Step) : Type 0 where
  firm : settled s ≡ s

going-IsFirm : (table : Table) → IsFirm (going table)
going-IsFirm table = record { firm = refl }

answered_eq : {r s : Reply} → answered r ≡ answered s → r ≡ s
answered_eq h = cc

IsFirm-maybe :
    {A : Type 0} (o : Option A) (f : A → Step) (b : Step)
    → ((a : A) → IsFirm (f a))
    → IsFirm b
    → IsFirm (maybe o f b)
IsFirm-maybe none f b h k = k
IsFirm-maybe (some a) f b h k = h a

firm_profile : (c : Confidence) (o : Option Text) (p : Text) → withdrawn c o ≡ some p → c ≢ fallback
firm_profile exact o p h = λ e. cc
firm_profile same_seg o p h = λ e. cc
firm_profile fallback o p h = absurd (cc)
firm_profile unparsed o p h = λ e. cc
firm_profile no_brand o p h = λ e. cc
firm_profile no_version o p h = λ e. cc

module _ (m : Mapper) where
  last_step-Withdraws :
      (brand seg_brand : Text) (ver : ℕ) (derived : Bool) (table : Table)
      → Withdraws
          (last_step m true brand seg_brand ver derived table)
          (last_step m false brand seg_brand ver derived table)
  unfolding last_step
  last_step-Withdraws brand seg_brand ver derived [] = refl
  last_step-Withdraws brand seg_brand ver derived (r ∷ rs) =
      let table = r ∷ rs in
      let farther =
        between-Withdraws brand ver derived (lower_row ver table) (upper_row ver table) in
      maybe-related Withdraws (lookup ver table) _ _ _ _ (λ row _. refl)
        λ _.
          maybe-related Withdraws (span_of ver (of_brand seg_brand m.segments)) _ _ _ _
            (λ seg _.
              maybe-related Withdraws (nearest_in ver seg table) _ _ _ _ (λ near _. refl)
                (λ _. farther))
            (λ _. farther)

  mobile_step-IsFirm :
      (brand seg_brand : Text) (ver : ℕ) (have own : Table)
      → IsFirm (mobile_step m brand seg_brand ver have own)
  unfolding mobile_step as_desktop
  mobile_step-IsFirm brand seg_brand ver have own =
      let base = get_or seg_brand (without_suffix mobile_suffix seg_brand) in
      IsFirm-maybe (without_suffix mobile_suffix brand) _ _
        (λ _.
          IsFirm-maybe (lookup ver have) _ _ (λ _. going-IsFirm own)
            (IsFirm-maybe (span_of ver (of_brand seg_brand m.desktop_equiv)) _ _
              (λ s.
                IsFirm-maybe (lookup ver (rows m base)) _ _ (λ row. record { firm = refl })
                  (IsFirm-maybe (span_of ver (of_brand base m.segments)) _ _
                    (λ seg.
                      IsFirm-maybe (nearest_in ver seg (rows m base)) _ _
                        (λ near. record { firm = refl }) (going-IsFirm _))
                    (going-IsFirm _)))
              (going-IsFirm own)))
        (going-IsFirm own)

  engine_step-IsFirm :
      (brand : Text) (ver : ℕ) (engine : Option Text) (own : Table)
      → IsFirm (engine_step m brand ver engine own)
  unfolding engine_step
  engine_step-IsFirm brand ver none own = going-IsFirm own
  engine_step-IsFirm brand ver (some e) own =
      IsFirm-maybe (lookup ver own) _ _ (λ _. going-IsFirm own)
        (IsFirm-maybe (lookup ver (rows m e)) _ _ (λ row. record { firm = refl }) (going-IsFirm _))

  then_last-Withdraws :
      (brand seg_brand : Text) (ver : ℕ) (derived : Bool) (s : Step)
      → IsFirm s
      → Withdraws
          (then_last m true brand seg_brand ver derived s)
          (then_last m false brand seg_brand ver derived s)
  unfolding then_last
  then_last-Withdraws brand seg_brand ver derived (answered r) h = ap ok (sym (answered_eq h.firm))
  then_last-Withdraws brand seg_brand ver derived (going own) h =
      last_step-Withdraws brand seg_brand ver derived own

  then_engine-Withdraws :
      (brand seg_brand : Text) (ver : ℕ) (engine : Option Text) (s : Step)
      → IsFirm s
      → Withdraws
          (then_engine m true brand seg_brand ver engine s)
          (then_engine m false brand seg_brand ver engine s)
  unfolding then_engine
  then_engine-Withdraws brand seg_brand ver engine (answered r) h = ap ok (sym (answered_eq h.firm))
  then_engine-Withdraws brand seg_brand ver engine (going own) h =
      then_last-Withdraws brand seg_brand ver (is_some engine) (engine_step m brand ver engine own)
        (engine_step-IsFirm brand ver engine own)

  -- A strict lookup answers as one that is not strict, an exception included, but for the profile of a
  -- reply that only crosses segments, which it withdraws.
  pub lookup_ua-withdraw : (ua : Text) → Withdraws (lookup_ua m ua true) (lookup_ua m ua false)
  unfolding lookup_ua lookup_brand
  lookup_ua-withdraw ua =
      maybe-related Withdraws (parse_ua ua) _ _ _ _
        (λ p _.
          then_engine-Withdraws p.0 _ p.1 (chromium_engine p.0) _
            (mobile_step-IsFirm p.0 _ p.1 _ _))
        (λ _. refl)

  -- A strict lookup never gives a profile that only crosses segments.
  pub lookup_ua-strict :
      (ua : Text) (r : Reply) (p : Text)
      → lookup_ua m ua true ≡ ok r
      → r.profile ≡ some p
      → r.confidence ≢ fallback
  lookup_ua-strict ua r p h hp =
      ok_bind (lookup_ua m ua false) (λ x. ok (withdraw x)) (sym (lookup_ua-withdraw ua) ∙ h)
        λ x _ e.
          let q : withdraw x ≡ r = ok-injective e in
          subst (λ c. c ≢ fallback) (ap (λ (y : Reply). y.confidence) q)
            (firm_profile x.confidence x.profile p (ap (λ (y : Reply). y.profile) q ∙ hp))
