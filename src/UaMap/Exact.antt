-- ===== src/UaMap/Exact.antt =====
-- Proofs about the exact answers of `lookup` of oracle/uamap.py.
use browserfp.Prelude.{
  ℕ, ◌≡◌, ◌≢◌, ◌⊎◌, inl, inr, refl, sym, ap, subst, ◌∙◌, Bool, true, false, ◌&&◌, [], ◌∷◌, ◌==◌,
  if◌then◌else◌, Bool-cases, Option, some, none, lookup, put, get_or, maybe, Result, ok, err, stuck,
  ◌>>=◌, ok-injective, arith,
}
use browserfp.Text.{Text}
use browserfp.Pattern.{same_text, without_suffix}
use browserfp.Match.Matcher.{Entry}
use browserfp.UaMap.UserAgent.{mobile_suffix, chromium_engine}
use browserfp.UaMap.Table.{
  Row, Table, Mapper, of_brand, span_of, merge, nearest_in, lower_row, upper_row,
}
use browserfp.UaMap.Lookup.{
  exact, Reply, Step, answered, going, names_of, shared_source, short_names, far_reply, far,
  between, rows, as_desktop, mobile_step, engine_step, last_step, then_last, then_engine,
  lookup_brand,
}

-- The table has the row at the version.
abbrev pub IsRow : ℕ → Row → Table → Type 0
IsRow v r [] = ⊥
IsRow v r ((w, s) ∷ t) = ((v ≡ w) × (r ≡ s)) ⊎ IsRow v r t

lookup-IsRow : (v : ℕ) (r : Row) (t : Table) → lookup v t ≡ some r → IsRow v r t
lookup-IsRow v r [] h = absurd (cc)
lookup-IsRow v r ((w, s) ∷ t) h = elim (Bool-cases (w == v)) [
  | inl e ↦ inl (ground (arith, e), some_row (rw e at h))
  | inr n ↦ inr (lookup-IsRow v r t (rw n at h))
]
  where
    some_row : {r s : Row} → some s ≡ some r → r ≡ s
    some_row e = cc

lookup-none : (v : ℕ) (r : Row) (t : Table) → lookup v t ≡ none → IsRow v r t → ⊥
lookup-none v r [] h i = i
lookup-none v r ((w, s) ∷ t) h i = elim (Bool-cases (w == v)) [
  | inl e ↦ let q = rw e at h in cc
  | inr n ↦ elim i [
    | inl p ↦ let d : v ≡ w = p.0 in ground (arith, n, d)
    | inr j ↦ lookup-none v r t (rw n at h) j
  ]
]

IsRow-put :
    (v k : ℕ) (r w : Row) (t : Table) → IsRow v r (put k w t) → IsRow v r t ⊎ ((v ≡ k) × (r ≡ w))
IsRow-put v k r w [] (inl p) = inr p
IsRow-put v k r w [] (inr i) = inl i
IsRow-put v k r w ((j, s) ∷ t) i = elim (Bool-cases (j == k)) [
  | inl e ↦ elim (put_head e i) [ inl p ↦ inr p | inr q ↦ inl (inr q) ]
  | inr n ↦ elim (put_tail n i) [
    | inl p ↦ inl (inl p)
    | inr q ↦ elim (IsRow-put v k r w t q) [ inl x ↦ inl (inr x) | inr y ↦ inr y ]
  ]
]
  where
    put_head :
        (j == k) ≡ true
        → IsRow v r (if j == k then (k, w) ∷ t else (j, s) ∷ put k w t)
        → ((v ≡ k) × (r ≡ w)) ⊎ IsRow v r t
    put_head e h = rw e at h

    put_tail :
        (j == k) ≡ false
        → IsRow v r (if j == k then (k, w) ∷ t else (j, s) ∷ put k w t)
        → ((v ≡ j) × (r ≡ s)) ⊎ IsRow v r (put k w t)
    put_tail e h = rw e at h

IsRow-merge : (v : ℕ) (r : Row) (a b : Table) → IsRow v r (merge a b) → IsRow v r a ⊎ IsRow v r b
unfolding merge
IsRow-merge v r a [] i = inl i
IsRow-merge v r a ((w, s) ∷ b) i = elim (IsRow-merge v r (put w s a) b i) [
  | inr j ↦ inr (inr j)
  | inl j ↦ elim (IsRow-put v w r s a j) [ inl k ↦ inl k | inr p ↦ inr (inl p) ]
]

-- The rows of the engine of a derived brand.
abbrev pub engine_rows : Mapper → Text → Table
engine_rows m brand = maybe (chromium_engine brand) (rows m) []

-- The profile of the reply is that of a row for the very version, of the brand or of its engine.
pub record IsSampled (m : Mapper) (brand : Text) (ver : ℕ) (r : Reply) : Type 0 where
  pub row : Row
  pub named : r.profile ≡ some row.0.id
  pub sampled : IsRow ver row (rows m brand) ⊎ IsRow ver row (engine_rows m brand)

module _ (m : Mapper) (brand : Text) (ver : ℕ) where
  abbrev IsOwn : Table → Type 0
  IsOwn t =
      (row : Row)
      → IsRow ver row t
      → IsRow ver row (rows m brand) ⊎ IsRow ver row (engine_rows m brand)

  -- An outcome that is exact only with a row for the version.
  record IsTrue (o : Result Reply) : Type 0 where
    true_reply : (r : Reply) → o ≡ ok r → r.confidence ≡ exact → IsSampled m brand ver r

  IsTrue-ok : (r : Reply) → (r.confidence ≡ exact → IsSampled m brand ver r) → IsTrue (ok r)
  IsTrue-ok r h = record {
    true_reply = λ s e c.
        let q : r ≡ s = ok-injective e in
        subst (IsSampled m brand ver) q (h (ap (λ (x : Reply). x.confidence) q ∙ c));
  }

  IsTrue-maybe :
      {A : Type 0} (o : Option A) (f : A → Result Reply) (b : Result Reply)
      → ((a : A) → o ≡ some a → IsTrue (f a))
      → (o ≡ none → IsTrue b)
      → IsTrue (maybe o f b)
  IsTrue-maybe none f b h k = k refl
  IsTrue-maybe (some a) f b h k = h a refl

  IsTrue-bind :
      {A : Type 0} (o : Result A) (f : A → Result Reply)
      → ((a : A) → IsTrue (f a))
      → IsTrue (o >>= f)
  IsTrue-bind (ok a) f h = h a
  IsTrue-bind (err e) f h = record { true_reply = λ r q. cc }
  IsTrue-bind stuck f h = record { true_reply = λ r q. cc }

  IsTrue-if : (b : Bool) (x y : Result Reply) → IsTrue x → IsTrue y → IsTrue (if b then x else y)
  IsTrue-if true x y h k = h
  IsTrue-if false x y h k = k

  far_reply-inexact :
      (is_brand strict : Bool) (near : ℕ) (rec : Entry)
      → (far_reply is_brand strict brand ver near rec).confidence ≢ exact
  far_reply-inexact true strict near rec h = cc
  far_reply-inexact false strict near rec h = cc

  far-IsTrue : (strict derived : Bool) (row : ℕ × Row) → IsTrue (far strict brand ver derived row)
  unfolding far
  far-IsTrue strict derived row =
      IsTrue-bind (short_names (names_of row.1.0)) _
        λ names. IsTrue-ok _ λ c. absurd (far_reply-inexact _ strict row.0 row.1.0 c)

  between-IsTrue :
      (strict derived : Bool) (lo hi : Option (ℕ × Row))
      → IsTrue (between strict brand ver derived lo hi)
  unfolding between
  between-IsTrue strict derived none none = IsTrue-ok _ (λ c. absurd (cc))
  between-IsTrue strict derived none (some hi) = far-IsTrue strict derived hi
  between-IsTrue strict derived (some lo) none = far-IsTrue strict derived lo
  between-IsTrue strict derived (some (v, (rlo, klo))) (some (w, (rhi, khi))) =
      IsTrue-if (same_text klo khi && shared_source (names_of rlo) (names_of rhi)) _ _
        (IsTrue-ok _ (λ c. absurd (cc))) (far-IsTrue strict derived (w, (rhi, khi)))

  last_step-IsTrue :
      (strict : Bool) (seg_brand : Text) (derived : Bool) (table : Table)
      → IsOwn table
      → IsTrue (last_step m strict brand seg_brand ver derived table)
  unfolding last_step
  last_step-IsTrue strict seg_brand derived [] own = IsTrue-ok _ (λ c. absurd (cc))
  last_step-IsTrue strict seg_brand derived (r ∷ rs) own =
      let table = r ∷ rs in
      let farther = between-IsTrue strict derived (lower_row ver table) (upper_row ver table) in
      IsTrue-maybe (lookup ver table) _ _
        (λ row e.
          IsTrue-ok _ λ c. record {
            row = row;
            named = refl;
            sampled = own row (lookup-IsRow ver row table e);
          })
        λ _.
          IsTrue-maybe (span_of ver (of_brand seg_brand m.segments)) _ _
            (λ seg _.
              IsTrue-maybe (nearest_in ver seg table) _ _ (λ near _. IsTrue-ok _ (λ c. absurd (cc)))
                (λ _. farther))
            (λ _. farther)

  -- A step that answers truly, or leaves a table that adds no row for the version.
  abbrev Honest : Step → Type 0
  Honest (answered r) = r.confidence ≡ exact → IsSampled m brand ver r
  Honest (going t) = IsOwn t

  record IsHonest (s : Step) : Type 0 where
    honest : Honest s

  IsHonest-maybe :
      {A : Type 0} (o : Option A) (f : A → Step) (b : Step)
      → ((a : A) → o ≡ some a → IsHonest (f a))
      → (o ≡ none → IsHonest b)
      → IsHonest (maybe o f b)
  IsHonest-maybe none f b h k = k refl
  IsHonest-maybe (some a) f b h k = h a refl

  IsHonest-own : (t : Table) → IsOwn t → IsHonest (going t)
  IsHonest-own t h = record { honest = h }

  merge-IsOwn : (a b : Table) → lookup ver a ≡ none → IsOwn b → IsOwn (merge a b)
  merge-IsOwn a b n own row i = elim (IsRow-merge ver row a b i) [
    | inl j ↦ absurd (lookup-none ver row a n j)
    | inr j ↦ own row j
  ]

  mobile_step-IsHonest :
      (seg_brand : Text) (have own : Table)
      → IsOwn own
      → IsHonest (mobile_step m brand seg_brand ver have own)
  unfolding mobile_step as_desktop
  mobile_step-IsHonest seg_brand have own h =
      let base = get_or seg_brand (without_suffix mobile_suffix seg_brand) in
      let stay = IsHonest-own own h in
      IsHonest-maybe (without_suffix mobile_suffix brand) _ _
        (λ _ _.
          IsHonest-maybe (lookup ver have) _ _ (λ _ _. stay)
            λ _.
              IsHonest-maybe (span_of ver (of_brand seg_brand m.desktop_equiv)) _ _
                (λ s _.
                  IsHonest-maybe (lookup ver (rows m base)) _ _
                    (λ row _. record { honest = λ c. absurd (cc) })
                    λ n.
                      let joined = IsHonest-own _ (merge-IsOwn (rows m base) own n h) in
                      IsHonest-maybe (span_of ver (of_brand base m.segments)) _ _
                        (λ seg _.
                          IsHonest-maybe (nearest_in ver seg (rows m base)) _ _
                            (λ near _. record { honest = λ c. absurd (cc) }) (λ _. joined))
                        (λ _. joined))
                (λ _. stay))
        (λ _. stay)

  engine_step-IsHonest :
      (engine : Option Text) (own : Table)
      → chromium_engine brand ≡ engine
      → IsOwn own
      → IsHonest (engine_step m brand ver engine own)
  unfolding engine_step
  engine_step-IsHonest none own q h = IsHonest-own own h
  engine_step-IsHonest (some e) own q h =
      IsHonest-maybe (lookup ver own) _ _ (λ _ _. IsHonest-own own h)
        λ _.
          IsHonest-maybe (lookup ver (rows m e)) _ _
            (λ row g. record {
              honest = λ c. record {
                row = row;
                named = refl;
                sampled = inr (
                    subst (λ o. IsRow ver row (maybe o (rows m) [])) (sym q)
                      (lookup-IsRow ver row (rows m e) g));
              };
            })
            (λ n. IsHonest-own _ (merge-IsOwn (rows m e) own n h))

  then_last-IsTrue :
      (strict : Bool) (seg_brand : Text) (derived : Bool) (s : Step)
      → IsHonest s
      → IsTrue (then_last m strict brand seg_brand ver derived s)
  unfolding then_last
  then_last-IsTrue strict seg_brand derived (answered r) h = IsTrue-ok r h.honest
  then_last-IsTrue strict seg_brand derived (going t) h =
      last_step-IsTrue strict seg_brand derived t h.honest

  then_engine-IsTrue :
      (strict : Bool) (seg_brand : Text) (s : Step)
      → IsHonest s
      → IsTrue (then_engine m strict brand seg_brand ver (chromium_engine brand) s)
  unfolding then_engine
  then_engine-IsTrue strict seg_brand (answered r) h = IsTrue-ok r h.honest
  then_engine-IsTrue strict seg_brand (going t) h =
      then_last-IsTrue strict seg_brand _ _ (engine_step-IsHonest _ t refl h.honest)

-- An exact reply names a record that has a row for the very version, in the table of the brand or in
-- that of its engine; strict or not.
pub lookup_brand-exact :
    (m : Mapper) (strict : Bool) (brand : Text) (ver : ℕ) (r : Reply)
    → lookup_brand m strict brand ver ≡ ok r
    → r.confidence ≡ exact
    → IsSampled m brand ver r
unfolding lookup_brand
lookup_brand-exact m strict brand ver r h c =
    (then_engine-IsTrue m brand ver strict _ _
        (mobile_step-IsHonest m brand ver _ _ (rows m brand) (λ row i. inl i))).true_reply
      r h c
