-- ===== src/Registry/Found.antt =====
-- Where the entry of a source is in the registry that `build` of oracle/registry.py makes.
use mathlib.Core.List.{Memᴰ}
use mathlib.Core.List.Memᴰ
use browserfp.Prelude.{
  ◌≡◌, sym, ap, subst, ◌∙◌, true, List, [], ◌∷◌, Option, some, Bool-cases, inl, inr,
}
use browserfp.Text.{Text}
use browserfp.Match.Norm.{Norm, same_list}
use browserfp.Match.Answers.{same_list-eq}
use browserfp.Keyed.{get_at, modify, get_at-modify, get_at-modify_other, same_list_self}
use browserfp.Registry.Merge.{
  H3, Golden, Source, Record, real_capture, full_name, merged, key_of, add_entries, add_sources,
  build,
}
use browserfp.Registry.Filed.{merged-core, merged_last, merged_kept}

module _ {ℓ κ} {A : Type ℓ} (P : A → Type κ) where
  -- There is a value under the key, and it is one of those.
  abbrev Holds : Text → List (Text × A) → Type (ℓ ⊔ κ)
  Holds k d = (v : A) × (get_at k d ≡ some v) × P v

  modify-Holds_new :
      (k : Text) (f : Option A → A) (d : List (Text × A))
      → ((o : Option A) → P (f o))
      → Holds k (modify k f d)
  modify-Holds_new k f d h = (f (get_at k d), get_at-modify k f d, h (get_at k d))

  modify-Holds :
      (k j : Text) (f : Option A → A) (d : List (Text × A))
      → ((v : A) → P v → P (f (some v)))
      → Holds k d
      → Holds k (modify j f d)
  modify-Holds k j f d step (v, e, p) = elim (Bool-cases (same_list j k)) [
    | inl q ↦
        subst (λ t. Holds k (modify t f d)) (sym (same_list-eq j k q))
          (f (some v), get_at-modify k f d ∙ ap (λ o. some (f o)) e, step v p)
    | inr n ↦ (v, get_at-modify_other j k f d n ∙ e, p)
  ]

module _ {ℓ} {J : Type ℓ} (dumps : Norm → Text) (h3_data : List (Text × H3 J)) where
  -- What no later entry takes from a record.
  module _ {κ} (P : Record J → Type κ)
      (kept : (src : Source J) (name : Text) (g : Golden J) (v : Record J)
        → P v
        → P (merged h3_data src name g (some v))) where
    add_entries-Holds :
        (k : Text) (src : Source J) (entries : List (Text × Golden J)) (d : List (Text × Record J))
        → Holds P k d
        → Holds P k (add_entries dumps h3_data src entries d)
    unfolding add_entries
    add_entries-Holds k src [] d h = h
    add_entries-Holds k src ((name, g) ∷ entries) d h = add_entries-Holds k src entries _ (
        modify-Holds P k (key_of dumps h3_data src g) (merged h3_data src name g) d
          (kept src name g) h)

    add_sources-Holds :
        (k : Text) (sources : List (Source J)) (d : List (Text × Record J))
        → Holds P k d
        → Holds P k (add_sources dumps h3_data sources d)
    unfolding add_sources
    add_sources-Holds k [] d h = h
    add_sources-Holds k (src ∷ sources) d h =
        add_sources-Holds k sources _ (add_entries-Holds k src src.tls_data d h)

    module _ (src : Source J) (name : Text) (g : Golden J)
        (made : (old : Option (Record J)) → P (merged h3_data src name g old)) where
      entry-Holds :
          (entries : List (Text × Golden J)) (d : List (Text × Record J))
          → Memᴰ (name, g) entries
          → Holds P (key_of dumps h3_data src g) (add_entries dumps h3_data src entries d)
      unfolding add_entries
      entry-Holds [] d m = absurd (Memᴰ.not-nil m)
      entry-Holds ((n, g') ∷ entries) d m = elim (Memᴰ.cases_cons m) [
        | inl e ↦
            subst
              (λ t. Holds P (key_of dumps h3_data src g) (
                add_entries dumps h3_data src entries
                  (modify (key_of dumps h3_data src t.1) (merged h3_data src t.0 t.1) d)))
              e
              (add_entries-Holds (key_of dumps h3_data src g) src entries _ (
                modify-Holds_new P (key_of dumps h3_data src g) (merged h3_data src name g) d made))
        | inr m' ↦ entry-Holds entries _ m'
      ]

      source-Holds :
          (sources : List (Source J)) (d : List (Text × Record J))
          → Memᴰ src sources
          → Memᴰ (name, g) src.tls_data
          → Holds P (key_of dumps h3_data src g) (add_sources dumps h3_data sources d)
      unfolding add_sources
      source-Holds [] d m i = absurd (Memᴰ.not-nil m)
      source-Holds (s ∷ sources) d m i = elim (Memᴰ.cases_cons m) [
        | inl e ↦ add_sources-Holds _ sources _ (
            subst
              (λ t. Holds P (key_of dumps h3_data src g) (add_entries dumps h3_data t t.tls_data d))
              e (entry-Holds src.tls_data d i))
        | inr m' ↦ source-Holds sources _ m' i
      ]

  -- Each entry of each source is in the registry: the record under the key of its fingerprint has its
  -- name among the aliases.
  pub build-alias :
      (sources : List (Source J)) (src : Source J) (name : Text) (g : Golden J)
      → Memᴰ src sources
      → Memᴰ (name, g) src.tls_data
      → (r : Record J) × (get_at (key_of dumps h3_data src g) (build dumps h3_data sources)
          ≡ some r)
        × Memᴰ (full_name src.source name) r.aliases
  unfolding build
  build-alias sources src name g m i =
      source-Holds (λ r. Memᴰ (full_name src.source name) r.aliases)
        (λ s n e v. merged_kept h3_data s n e v (full_name src.source name)) src name g
        (merged_last h3_data src name g) sources [] m i

  merged-real :
      (src : Source J) (name : Text) (g : Golden J) (v : Record J)
      → v.provenance ≡ real_capture
      → (merged h3_data src name g (some v)).provenance ≡ real_capture
  merged-real src name g v h = elim (Bool-cases (same_list src.provenance real_capture)) [
    | inl e ↦
        ap (λ c. c.2) (merged-core h3_data src name g (some v))
        ∙ rw e (same_list-eq src.provenance real_capture e)
    | inr e ↦ ap (λ c. c.2) (merged-core h3_data src name g (some v)) ∙ rw e h
  ]

  named-real :
      (src : Source J) (name : Text) (g : Golden J) (old : Option (Record J))
      → src.provenance ≡ real_capture
      → (merged h3_data src name g old).provenance ≡ real_capture
  named-real src name g old h =
      let real : same_list src.provenance real_capture ≡ true =
        ap (λ t. same_list t real_capture) h ∙ same_list_self real_capture in
      ap (λ c. c.2) (merged-core h3_data src name g old) ∙ rw real h

  -- A fingerprint that one of the sources captured from a real browser stands in the registry as a real
  -- capture, in whatever order the sources come.
  pub build-real :
      (sources : List (Source J)) (src : Source J) (name : Text) (g : Golden J)
      → Memᴰ src sources
      → Memᴰ (name, g) src.tls_data
      → src.provenance ≡ real_capture
      → (r : Record J) × (get_at (key_of dumps h3_data src g) (build dumps h3_data sources)
          ≡ some r)
        × (r.provenance ≡ real_capture)
  unfolding build
  build-real sources src name g m i h =
      source-Holds (λ r. r.provenance ≡ real_capture) merged-real src name g
        (λ old. named-real src name g old h) sources [] m i
