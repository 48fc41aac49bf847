-- ===== src/Collect/Sound/Isa.antt =====
-- src/isa.cc.
use archspec.Base.{
  ◌≡◌, refl, Bool, false, List, [], ◌∷◌, Bytes, codes, is_empty, Bool-cases, inl, inr,
}
use archspec.Report.Field.{
  Status, of_value, unavailable, available, parse_error, not_found, unsupported, StringField,
  bool_default, list_default,
}
use archspec.Report.Isa.{IsaFeatures}
use archspec.Report.Sound.Machine.{IsaFeaturesIsSound}
use archspec.Report.Options.{CollectOptions}
use archspec.Host.{Files}
use archspec.KeyValue.{KeyValueMap}
use archspec.Read.{read_file, proc_path}
use archspec.Read.Sound.{IsSound, of_value-IsSound, failed-IsSound}
use archspec.Collect.CpuFlags.{bool_from_flag, any_flag}
use archspec.Collect.Isa.{
  FeatureFamily, x86, arm, riscv, unknown, find_feature_source, mark_feature_fields, x86_features,
  arm_features, riscv_features, family_features, isa_of_blocks, collect_isa,
}

mark_feature_fields-IsSound :
    (s : Status) (raw : StringField)
    → available s ≡ false
    → IsSound raw
    → IsaFeaturesIsSound (mark_feature_fields s raw)
unfolding mark_feature_fields IsaFeaturesIsSound
mark_feature_fields-IsSound s raw p q =
    let no : IsSound {A = _} (unavailable ⦃d = bool_default⦄ s) =
      failed-IsSound _ bool_default s p in
    search (no, q)

bool_from_flag-IsSound : (flags : List Bytes) (name : Bytes) → IsSound (bool_from_flag flags name)
unfolding bool_from_flag
bool_from_flag-IsSound flags name = of_value-IsSound _

any_flag-IsSound : (flags names : List Bytes) → IsSound (any_flag flags names)
unfolding any_flag
any_flag-IsSound flags names = of_value-IsSound _

-- the features of a text before those of its family are set
abbrev unset_features : Bytes → IsaFeatures
unset_features raw = mark_feature_fields unsupported (of_value raw)

unset-fails : IsSound {A = Bool} (unavailable unsupported)
unfolding available
unset-fails = failed-IsSound _ _ unsupported refl

x86_features-IsSound :
    (raw : Bytes) (flags : List Bytes)
    → IsaFeaturesIsSound (x86_features (unset_features raw) flags)
unfolding x86_features mark_feature_fields IsaFeaturesIsSound
x86_features-IsSound raw flags =
    search (bool_from_flag-IsSound, any_flag-IsSound, of_value-IsSound, unset-fails)

arm_features-IsSound :
    (raw : Bytes) (flags : List Bytes)
    → IsaFeaturesIsSound (arm_features (unset_features raw) flags)
unfolding arm_features mark_feature_fields IsaFeaturesIsSound
arm_features-IsSound raw flags =
    search (bool_from_flag-IsSound, any_flag-IsSound, of_value-IsSound, unset-fails)

riscv_features-IsSound :
    (raw text : Bytes) → IsaFeaturesIsSound (riscv_features (unset_features raw) text)
unfolding riscv_features mark_feature_fields IsaFeaturesIsSound
riscv_features-IsSound raw text = search (of_value-IsSound, unset-fails)

family_features-IsSound :
    (family : FeatureFamily) (raw : Bytes)
    → IsaFeaturesIsSound (family_features (record { raw = raw; family = family }))
unfolding family_features available
family_features-IsSound x86 raw = x86_features-IsSound raw _
family_features-IsSound arm raw = arm_features-IsSound raw _
family_features-IsSound riscv raw = riscv_features-IsSound raw raw
family_features-IsSound unknown raw =
    mark_feature_fields-IsSound unsupported (of_value raw) refl (of_value-IsSound raw)

isa_of_blocks-IsSound : (blocks : List KeyValueMap) → IsaFeaturesIsSound (isa_of_blocks blocks)
unfolding isa_of_blocks available
isa_of_blocks-IsSound [] =
    mark_feature_fields-IsSound parse_error _ refl (failed-IsSound _ _ parse_error refl)
isa_of_blocks-IsSound (block ∷ blocks) =
    let source = find_feature_source block in
    elim (Bool-cases (is_empty source.raw)) [
      | inl e ↦
          rw (e, isa_of_blocks)
            (mark_feature_fields-IsSound not_found _ refl (failed-IsSound _ _ not_found refl))
      | inr e ↦ rw (e, isa_of_blocks) (family_features-IsSound source.family source.raw)
    ]

-- Every field for the features of the instruction set has a value exactly when its status is `ok`.
pub collect_isa-IsSound : (h : Files) (o : CollectOptions) → IsaFeaturesIsSound (collect_isa h o)
unfolding collect_isa
collect_isa-IsSound h o =
    let s = (read_file h (proc_path o (codes "/cpuinfo"))).status in
    elim (Bool-cases (available s)) [
      | inl e ↦ rw (e, collect_isa) (isa_of_blocks-IsSound _)
      | inr e ↦ rw (e, collect_isa) (mark_feature_fields-IsSound s _ e (failed-IsSound _ _ s e))
    ]
