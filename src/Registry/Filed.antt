-- ===== src/Registry/Filed.antt =====
-- What `build` of oracle/registry.py keeps of the sources.
use browserfp.Prelude.{
  ℕ, suc, ◌+◌, ◌≡◌, ◌⊎◌, refl, sym, ap, subst, ◌∙◌, Bool, true, false, List, [], ◌∷◌, ◌++◌, length,
  length-append, Option, none, some, maybe, if◌then◌else◌, Bool-cases, inl, inr, arith,
}
use mathlib.Core.List.{Memᴰ}
use mathlib.Core.List.Memᴰ
use browserfp.Text.{Text}
use browserfp.ClientHello.Fingerprint.{Fingerprint}
use browserfp.Match.Norm.{Norm, norm, same_list}
use browserfp.Keyed.{
  modify, Every, IsDistinct, total, Every-modify, modify-IsDistinct, total-modify,
}
use browserfp.Registry.Merge.{
  copy_h2, H3, Golden, Source, Record, real_capture, full_name, new_record, add_alias, take_name,
  take_h3, take_h2, merged, key_of, add_entries, add_sources, build,
}

-- What a record keeps to: it stands under the key of its own fingerprint, and its id is one of the names
-- that were merged in it.
abbrev pub IsFiled {ℓ} : {J : Type ℓ} → (Norm → Text) → Text → Record J → Type 0
IsFiled dumps k r = (dumps (norm r.tls false) ≡ k) × Memᴰ r.id r.aliases

module _ {ℓ} {J : Type ℓ} where
  -- What HTTP/2 and HTTP/3 leave alone.
  abbrev core : Record J → Text × List Text × Text × Fingerprint
  core r = (r.id, r.aliases, r.provenance, r.tls)

  if-core : (c : Bool) (r s : Record J) → core r ≡ core s → core (if c then r else s) ≡ core s
  if-core true r s h = h
  if-core false r s h = refl

  take_h3-core :
      (src : Source J) (h : Option (H3 J)) (r : Record J) → core (take_h3 src h r) ≡ core r
  take_h3-core src h r = if-core _ (record r { h3 = h }) r refl

  take_h2-core :
      (b : Bool) (h : Option (List (Text × J))) (r : Record J) → core (take_h2 b h r) ≡ core r
  take_h2-core b none r = refl
  take_h2-core b (some []) r = refl
  take_h2-core b (some (entry ∷ h)) r =
      if-core _ (record r { h2 = some (copy_h2 (entry ∷ h)); h2_real = b }) r refl

  module _ (h3_data : List (Text × H3 J)) (src : Source J) (name : Text) (g : Golden J) where
    abbrev begun : Option (Record J) → Record J
    begun old = maybe old (λ r. r) (new_record src name g)

    abbrev alias : Text
    alias = full_name src.source name

    pub merged-core :
        (old : Option (Record J))
        → core (merged h3_data src name g old)
          ≡ core (take_name src alias (add_alias alias g.version (begun old)))
    unfolding merged
    merged-core old = take_h2-core _ _ _ ∙ take_h3-core src _ _

    merged-aliases :
        (old : Option (Record J))
        → (merged h3_data src name g old).aliases ≡ (begun old).aliases ++ (alias ∷ [])
    merged-aliases old = elim (Bool-cases (same_list src.provenance real_capture)) [
      | inl e ↦ ap (λ c. c.1) (merged-core old) ∙ rw e refl
      | inr e ↦ ap (λ c. c.1) (merged-core old) ∙ rw e refl
    ]

    merged-tls : (old : Option (Record J)) → (merged h3_data src name g old).tls ≡ (begun old).tls
    merged-tls old = elim (Bool-cases (same_list src.provenance real_capture)) [
      | inl e ↦ ap (λ c. c.3) (merged-core old) ∙ rw e refl
      | inr e ↦ ap (λ c. c.3) (merged-core old) ∙ rw e refl
    ]

    -- The name of the record is the one that comes in, or that of before.
    merged-id :
        (old : Option (Record J))
        → ((merged h3_data src name g old).id ≡ alias)
          ⊎ ((merged h3_data src name g old).id ≡ (begun old).id)
    merged-id old = elim (Bool-cases (same_list src.provenance real_capture)) [
      | inl e ↦ inl (ap (λ c. c.0) (merged-core old) ∙ rw e refl)
      | inr e ↦ inr (ap (λ c. c.0) (merged-core old) ∙ rw e refl)
    ]

    pub merged_last : (old : Option (Record J)) → Memᴰ alias (merged h3_data src name g old).aliases
    merged_last old =
        subst (λ t. Memᴰ alias t) (sym (merged-aliases old))
          (Memᴰ.append_right (begun old).aliases (Memᴰ.head refl))

    pub merged_kept :
        (v : Record J) (t : Text)
        → Memᴰ t v.aliases
        → Memᴰ t (merged h3_data src name g (some v)).aliases
    merged_kept v t m =
        subst (λ ts. Memᴰ t ts) (sym (merged-aliases (some v))) (Memᴰ.append_left (alias ∷ []) m)

    merged-IsFiled_new :
        (dumps : Norm → Text)
        → IsFiled dumps (key_of dumps h3_data src g) (merged h3_data src name g none)
    merged-IsFiled_new dumps = (
      ap (λ fp. dumps (norm fp false)) (merged-tls none),
      subst (λ t. Memᴰ t (merged h3_data src name g none).aliases) (sym (named (merged-id none)))
          (merged_last none),
    )
      where
        named :
            ((merged h3_data src name g none).id ≡ alias)
              ⊎ ((merged h3_data src name g none).id ≡ alias)
            → (merged h3_data src name g none).id ≡ alias
        named (inl e) = e
        named (inr e) = e

    merged-IsFiled :
        (dumps : Norm → Text) (k : Text) (v : Record J)
        → IsFiled dumps k v
        → IsFiled dumps k (merged h3_data src name g (some v))
    merged-IsFiled dumps k v (h, m) = (
      ap (λ fp. dumps (norm fp false)) (merged-tls (some v)) ∙ h,
      elim (merged-id (some v)) [
        | inl e ↦
            subst (λ t. Memᴰ t (merged h3_data src name g (some v)).aliases) (sym e)
              (merged_last (some v))
        | inr e ↦
            subst (λ t. Memᴰ t (merged h3_data src name g (some v)).aliases) (sym e)
              (merged_kept v v.id m)
      ],
    )

    merged-length :
        (v : Record J)
        → length (merged h3_data src name g (some v)).aliases ≡ suc (length v.aliases)
    merged-length v =
        ap length (merged-aliases (some v)) ∙ omega (arith, length-append v.aliases (alias ∷ []))

    merged-length_new : length (merged h3_data src name g none).aliases ≡ 1
    merged-length_new = ap length (merged-aliases none)

  abbrev pub names_in : Record J → ℕ
  names_in r = length r.aliases

  module _ (dumps : Norm → Text) (h3_data : List (Text × H3 J)) where
    abbrev Registry : Type ℓ
    Registry = List (Text × Record J)

    abbrev IsMerged : Registry → Type ℓ
    IsMerged d = Every (IsFiled dumps) d × IsDistinct d

    add_entries-IsMerged :
        (src : Source J) (entries : List (Text × Golden J)) (d : Registry)
        → IsMerged d
        → IsMerged (add_entries dumps h3_data src entries d)
    unfolding add_entries
    add_entries-IsMerged src [] d h = h
    add_entries-IsMerged src ((name, g) ∷ entries) d h = add_entries-IsMerged src entries _ (
      Every-modify (IsFiled dumps) (key_of dumps h3_data src g) (merged h3_data src name g) d
          (merged-IsFiled_new h3_data src name g dumps)
          (λ v f. merged-IsFiled h3_data src name g dumps (key_of dumps h3_data src g) v f) h.0,
      modify-IsDistinct (key_of dumps h3_data src g) (merged h3_data src name g) d h.1,
    )

    add_sources-IsMerged :
        (sources : List (Source J)) (d : Registry)
        → IsMerged d
        → IsMerged (add_sources dumps h3_data sources d)
    unfolding add_sources
    add_sources-IsMerged [] d h = h
    add_sources-IsMerged (src ∷ sources) d h =
        add_sources-IsMerged sources _ (add_entries-IsMerged src src.tls_data d h)

    -- In the registry that `build` makes no fingerprint has two records: the keys are distinct, each
    -- record stands under the key of its own fingerprint, and its id is one of its aliases.
    pub build-IsFiled :
        (sources : List (Source J))
        → Every (IsFiled dumps) (build dumps h3_data sources)
          × IsDistinct (build dumps h3_data sources)
    unfolding build
    build-IsFiled sources = add_sources-IsMerged sources [] (tt, tt)

    add_entries-total :
        (src : Source J) (entries : List (Text × Golden J)) (d : Registry)
        → total names_in (add_entries dumps h3_data src entries d)
          ≡ length entries + total names_in d
    unfolding add_entries
    add_entries-total src [] d = omega arith
    add_entries-total src ((name, g) ∷ entries) d =
        let d' = modify (key_of dumps h3_data src g) (merged h3_data src name g) d in
        omega (
          arith,
          add_entries-total src entries d',
          total-modify names_in (key_of dumps h3_data src g) (merged h3_data src name g) d
              (merged-length_new h3_data src name g) (merged-length h3_data src name g),
        )

    -- How many entries the files of all sources have.
    abbrev pub entries_of : List (Source J) → ℕ
    entries_of [] = 0
    entries_of (src ∷ sources) = length src.tls_data + entries_of sources

    add_sources-total :
        (sources : List (Source J)) (d : Registry)
        → total names_in (add_sources dumps h3_data sources d)
          ≡ entries_of sources + total names_in d
    unfolding add_sources
    add_sources-total [] d = omega arith
    add_sources-total (src ∷ sources) d = omega (
      arith,
      add_sources-total sources (add_entries dumps h3_data src src.tls_data d),
      add_entries-total src src.tls_data d,
    )

    -- Merging loses and invents no name: the records of the registry have as many aliases in all as the
    -- files of the sources have entries.
    pub build-total :
        (sources : List (Source J))
        → total names_in (build dumps h3_data sources) ≡ entries_of sources
    unfolding build
    build-total sources = omega (arith, add_sources-total sources [])
