-- ===== src/Collect/Sound.antt =====
-- The validity and the status of the fields that the collectors return: the rules that the proofs
-- of the child modules share.
pub mod Devices
pub mod Machine
pub mod Isa
pub mod Lists
pub mod Cpu
pub mod System
use archspec.Report.Field.{Status, StringField, unavailable, available, list_default}
use archspec.Report.Options.{CollectOptions}
use archspec.Collect.Os.{redact}
use archspec.Collect.Power.{keep_status}
use archspec.Base.{◌≡◌, arith, Bool, true, false, List, [], ◌∷◌, All, if◌then◌else◌}
use archspec.Read.Sound.{
  IsSound, of_value-IsSound, choose-IsSound, failed-IsSound, unset-IsSound,
  read_string_field_with-IsSound, read_scaled_u64_field-IsSound, read_u32_field-IsSound,
  read_i64_field-IsSound, read_size_bytes_field-IsSound, read_cpu_list_count_field-IsSound,
  read_symlink_basename_field-IsSound,
}

pub ruleset sound_laws = (
  of_value-IsSound, choose-IsSound, failed-IsSound, unset-IsSound, read_string_field_with-IsSound,
  read_scaled_u64_field-IsSound, read_u32_field-IsSound, read_i64_field-IsSound,
  read_size_bytes_field-IsSound, read_cpu_list_count_field-IsSound,
  read_symlink_basename_field-IsSound,
)

-- Either of two that have a property.
pub choose-either :
    {A : Type 0} (P : A → Type 0) (b : Bool) (x y : A) → P x → P y → P (if b then x else y)
choose-either P true x y p q = p
choose-either P false x y p q = q

-- A row that is kept or left out.
pub keep-All :
    {A : Type 0} (P : A → Type 0) (b : Bool) (x : A) (xs : List A)
    → P x
    → All P xs
    → All P (if b then x ∷ xs else xs)
keep-All P true x xs p h = (p, h)
keep-All P false x xs p h = h

pub skip-All :
    {A : Type 0} (P : A → Type 0) (b : Bool) (x : A) (xs : List A)
    → P x
    → All P xs
    → All P (if b then xs else x ∷ xs)
skip-All P true x xs p h = h
skip-All P false x xs p h = (p, h)

-- The status that a loop over files ends with is a failure's.
pub keep_status-fails :
    (last s : Status)
    → available last ≡ false
    → available s ≡ false
    → available (keep_status last s) ≡ false
unfolding keep_status available
keep_status-fails last s p q = ground arith

pub redact-IsSound : (o : CollectOptions) (f : StringField) → IsSound f → IsSound (redact o f)
unfolding redact IsSound unavailable available
redact-IsSound o f p = ground arith
