-- ===== src/Collect/Cpu/Identity.antt =====
-- src/cpu.cc: the architecture, the address sizes and the hypervisor.
use archspec.Base.{
  ℕ, not, ◌&&◌, ◌||◌, List, [], ◌∷◌, Bytes, Option, none, some, codes, if◌then◌else◌, is_empty,
  eq_bytes,
}
use archspec.Text.{starts_with, split_words, word_set}
use archspec.Number.{parse_u64}
use archspec.Report.Field.{
  not_found, parse_error, internal_error, of_value, unavailable, U64Field, StringField, nat_default,
  list_default,
}
use archspec.Report.Cpu.{
  ArchType, unknown, x86, x86_64, arm, aarch64, riscv32, riscv64, ppc64, s390x,
}
use archspec.Report.Options.{CollectOptions}
use archspec.Host.{Files, Host}
use archspec.Read.{sys_path, read_string_field}
use archspec.KeyValue.{KeyValueMap, map_value}

unfoldable pub arch_from_machine : Bytes → ArchType
arch_from_machine machine =
    if eq_bytes machine (codes "x86_64") || eq_bytes machine (codes "amd64")
    then x86_64
    else if eq_bytes machine (codes "i386")
        || eq_bytes machine (codes "i486")
        || eq_bytes machine (codes "i586")
        || eq_bytes machine (codes "i686")
    then x86
    else if eq_bytes machine (codes "armv7l")
        || eq_bytes machine (codes "armv8l")
        || starts_with machine (codes "armv")
    then arm
    else if eq_bytes machine (codes "aarch64") || eq_bytes machine (codes "arm64")
    then aarch64
    else if eq_bytes machine (codes "riscv32")
    then riscv32
    else if eq_bytes machine (codes "riscv64")
    then riscv64
    else if eq_bytes machine (codes "ppc64") || eq_bytes machine (codes "ppc64le")
    then ppc64
    else if eq_bytes machine (codes "s390x")
    then s390x
    else unknown

unfoldable pub arch_of : Host → ArchType
arch_of h = elim h.uname [ none ↦ unknown | some uts ↦ arch_from_machine uts.machine ]

unfoldable pub arch_name_of : Host → StringField
arch_name_of h = elim h.uname [
  | none ↦ unavailable internal_error
  | some uts ↦ of_value uts.machine
]

pub record AddressSizes : Type 0 where
  pub physical : U64Field
  pub virtual_bits : U64Field

-- The loop's variables: the last number, if there was one, and the two sizes, if they were found.
pub record SizeScan : Type 0 where
  pub last_number : Option ℕ
  pub physical : Option ℕ
  pub virtual_bits : Option ℕ

unfoldable pub size_step : Bytes → SizeScan → SizeScan
size_step word s = elim (parse_u64 word) [
  | some parsed ↦ record s { last_number = some parsed }
  | none ↦ elim s.last_number [
    | none ↦ s
    | some n ↦
        if starts_with word (codes "physical")
        then record s { physical = some n }
        else if starts_with word (codes "virtual")
        then record s { virtual_bits = some n }
        else s
  ]
]

unfoldable pub size_loop : List Bytes → SizeScan → SizeScan
unfolding size_step
size_loop [] s = s
size_loop (word ∷ words) s = size_loop words (size_step word s)

-- a size that was found, or `parse_error`
unfoldable pub found_size : Option ℕ → U64Field
found_size none = unavailable parse_error
found_size (some n) = of_value n

unfoldable pub parse_address_sizes : KeyValueMap → AddressSizes
unfolding size_loop found_size
parse_address_sizes block = elim (map_value block (codes "address sizes")) [
  | none ↦ record { physical = unavailable not_found; virtual_bits = unavailable not_found }
  | some text ↦
      let s =
        size_loop (split_words text)
          (record { last_number = none; physical = none; virtual_bits = none }) in
      record { physical = found_size s.physical; virtual_bits = found_size s.virtual_bits }
]

unfoldable pub first_value : KeyValueMap → List Bytes → Bytes
first_value block [] = []
first_value block (key ∷ keys) = elim (map_value block key) [
  | none ↦ first_value block keys
  | some value ↦ value
]

-- `word_set(first_flags(first))`
unfoldable pub first_flags : KeyValueMap → List Bytes
unfolding first_value
first_flags block =
    word_set (first_value block (codes "flags" ∷ codes "Features" ∷ codes "isa" ∷ []))

unfoldable pub vendor_loop : Files → List Bytes → StringField
vendor_loop h [] = unavailable not_found
vendor_loop h (path ∷ paths) =
    let field = read_string_field h path in
    if field.valid && not (is_empty field.value) then field else vendor_loop h paths

unfoldable pub first_existing_hypervisor_vendor : Files → CollectOptions → StringField
unfolding vendor_loop
first_existing_hypervisor_vendor h o = vendor_loop h (
    sys_path o (codes "/hypervisor/type")
    ∷ sys_path o (codes "/class/dmi/id/product_name")
    ∷ sys_path o (codes "/class/dmi/id/sys_vendor")
    ∷ [])
