-- ===== src/Eon/Birth/Aliases.antt =====
-- The aliases of the metrics of a birth.
use srad.Prelude.{
  ℕ, suc, ◌+◌, ◌*◌, ◌%◌, ◌≤◌, ◌<◌, ◌≡◌, ◌≢◌, refl, sym, ap, ap₂, ◌∙◌, Option-cases, Option, none,
  some, List, [], ◌∷◌, ◌++◌, length, length-append, append-nil, inl, inr, subst, Unique,
  Unique-append, list_eq, nat_eq, arith, All,
}
use srad.Types.Text.{Text}
use srad.Types.Payload.{Metric, Value, fields}
use srad.Types.Payload
use srad.App.Metrics.{MetricId}
use srad.Eon.Ids.Free.{IsFree, next_free-IsFree}
use srad.Eon.Birth.{
  BirthInitializer, BirthMetricDetails, BirthObjectType, Registration, AliasConfig, no_alias,
  generate, custom, generate_alias, into_metric_value, identify, registered, initialise_birth,
  two_32, two_64, first_alias, id_part,
}
use srad.Eon.Birth.Names.{registered_cases, added, config}

abbrev pub aliases : List Metric → List ℕ
aliases [] = []
aliases (m ∷ ms) =
    let rest = aliases ms in elim (fields m).alias [ none ↦ rest | some a ↦ a ∷ rest ]

aliases-append : (xs ys : List Metric) → aliases (xs ++ ys) ≡ aliases xs ++ aliases ys
aliases-append [] ys = refl
aliases-append (m ∷ xs) ys = elim (Option-cases (fields m).alias) [
  | inl e ↦ rw (aliases, e) (aliases-append xs ys)
  | inr (a, e) ↦ rw (aliases, e) (ap (λ l. a ∷ l) (aliases-append xs ys))
]

-- The aliases that are taken are those of the metrics, in order, and no two are equal.
pub record HasAliases (b : BirthInitializer) : Type 0 where
  pub taken : aliases b.birth_metrics ≡ b.metric_aliases
  pub unique : Unique b.metric_aliases

abbrev pub IsCustom : AliasConfig → Type 0
IsCustom (custom a) = Unit
IsCustom _ = ⊥

abbrev pub NotCustom : Registration → Type 0
NotCustom r = ¬ IsCustom (config r)

aliases-added :
    {T : Type 0} (id : MetricId) (d : BirthMetricDetails T) (v : Option Value)
    → aliases (identify id (into_metric_value d v) ∷ [])
      ≡ elim id [ MetricId.name n ↦ [] | MetricId.alias a ↦ a ∷ [] ]
unfolding into_metric_value Payload.new Payload.set_name Payload.set_datatype Payload.set_alias
    identify
aliases-added (MetricId.name n) d none = refl
aliases-added (MetricId.name n) d (some v) = refl
aliases-added (MetricId.alias a) d none = refl
aliases-added (MetricId.alias a) d (some v) = refl

module _ (hash : Text → ℕ) where
  first_alias-below :
      (name : Text) (t : BirthObjectType) → id_part t < two_32 → first_alias hash t name < two_64
  unfolding first_alias
  first_alias-below name t h = omega (arith, h)

  -- An alias that is generated is not among those that were taken.
  pub generate_alias-IsFree :
      (name : Text) (b : BirthInitializer)
      → id_part b.inserter_type < two_32
      → length b.metric_aliases < two_64
      → IsFree two_64
          (first_alias hash b.inserter_type name)
          b.metric_aliases
          (generate_alias hash name b).0
  unfolding generate_alias
  generate_alias-IsFree name b h l =
      next_free-IsFree two_64 (first_alias hash b.inserter_type name) b.metric_aliases
        (first_alias-below name b.inserter_type h) l

  -- While the hash's 32 bits do not overflow, the alias stays in the range of its device.
  generate_alias-range :
      (name : Text) (b : BirthInitializer)
      → id_part b.inserter_type < two_32
      → hash name % two_32 + length b.metric_aliases < two_32
      → (id_part b.inserter_type * two_32 ≤ (generate_alias hash name b).0)
        × ((generate_alias hash name b).0 < suc (id_part b.inserter_type) * two_32)
  unfolding first_alias
  generate_alias-range name b h l =
      let f = generate_alias-IsFree name b h (omega (arith, l)) in ground (arith, f.near, f.below)

  -- Aliases that are generated for metrics of two devices, or of a device and the node, are
  -- different, while the 32 bits of the names' hashes and the numbers of aliases that were taken
  -- do not overflow.
  pub generate_alias-other :
      (name name' : Text) (b b' : BirthInitializer)
      → id_part b.inserter_type < two_32
      → id_part b'.inserter_type < two_32
      → hash name % two_32 + length b.metric_aliases < two_32
      → hash name' % two_32 + length b'.metric_aliases < two_32
      → id_part b.inserter_type ≢ id_part b'.inserter_type
      → (generate_alias hash name b).0 ≢ (generate_alias hash name' b').0
  generate_alias-other name name' b b' h h' l l' n e =
      let r = generate_alias-range name b h l in
      let r' = generate_alias-range name' b' h' l' in omega (arith, r.0, r.1, r'.0, r'.1, n, e)

  -- What one more metric leaves.
  Step : BirthInitializer → BirthInitializer → Type 0
  Step b b' =
      HasAliases b'
      × (b'.inserter_type ≡ b.inserter_type)
      × (length b'.metric_aliases ≤ suc (length b.metric_aliases))

  added-Step :
      {T : Type 0} (a : AliasConfig) (d : BirthMetricDetails T) (v : Option Value)
      (b : BirthInitializer)
      → ¬ IsCustom a
      → id_part b.inserter_type < two_32
      → length b.metric_aliases < two_64
      → HasAliases b
      → Step b (added hash a d v b)
  unfolding Step
  added-Step no_alias d v b c i l h = (
    record {
      taken =
          aliases-append b.birth_metrics _ ∙ ap₂ ◌++◌ h.taken (aliases-added _ d v) ∙ append-nil _;
      unique = h.unique;
    },
    refl,
    omega arith,
  )
  added-Step generate d v b c i l h = (
    record {
      taken = aliases-append b.birth_metrics _ ∙ ap₂ ◌++◌ h.taken (aliases-added _ d v);
      unique = Unique-append _ b.metric_aliases (generate_alias-IsFree d.name b i l).free h.unique;
    },
    refl,
    omega (arith, length-append b.metric_aliases ((generate_alias hash d.name b).0 ∷ [])),
  )
  added-Step (custom a) d v b c i l h = elim (c tt) [ ]

  registered-Step :
      (r : Registration) (b : BirthInitializer)
      → NotCustom r
      → id_part b.inserter_type < two_32
      → length b.metric_aliases < two_64
      → HasAliases b
      → Step b (registered hash r b)
  registered-Step r b c i l h =
      registered_cases hash (Step b) r b (unfold Step in (h, refl, omega arith))
        (λ T d v e p f. added-Step d.alias d v b (λ x. c (subst IsCustom (sym e) x)) i l h)

  -- Whatever a metric manager registers without aliases of its own, fewer metrics than there are
  -- aliases: no two metrics of the birth have the same alias.
  pub initialise_birth-HasAliases :
      (rs : List Registration) (b : BirthInitializer)
      → All NotCustom rs
      → id_part b.inserter_type < two_32
      → length b.metric_aliases + length rs < two_64
      → HasAliases b
      → HasAliases (initialise_birth hash rs b)
  unfolding initialise_birth Step
  initialise_birth-HasAliases [] b c i l h = h
  initialise_birth-HasAliases (r ∷ rs) b c i l h =
      let s = registered-Step r b c.0 i (omega (arith, l)) h in
      initialise_birth-HasAliases rs (registered hash r b) c.1 (rw s.1 i) (omega (arith, s.2, l))
        s.0
