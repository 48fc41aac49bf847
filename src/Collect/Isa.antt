-- ===== src/Collect/Isa.antt =====
-- src/isa.cc.
use archspec.Base.{
  ℕ, ◌+◌, Bool, true, false, ◌&&◌, ◌||◌, List, [], ◌∷◌, Bytes, none, some, codes, if◌then◌else◌,
  take, drop, ◌==◌, is_empty,
}
use archspec.Text.{lower_copy, find, find_text, word_set}
use archspec.Report.Field.{
  Status, not_found, parse_error, unsupported, available, of_value, unavailable, StringField,
  bool_default, list_default,
}
use archspec.Report.Isa.{IsaFeatures}
use archspec.Report.Options.{CollectOptions}
use archspec.Host.{Files}
use archspec.Read.{proc_path, read_file}
use archspec.KeyValue.{KeyValueMap, map_value, parse_colon_blocks}
use archspec.Collect.CpuFlags.{bool_from_flag, any_flag}
pub mod Riscv

pub data FeatureFamily : Type 0 where
  x86 arm riscv unknown : FeatureFamily

pub record FeatureSource : Type 0 where
  pub raw : Bytes
  pub family : FeatureFamily

unfoldable pub find_feature_source : KeyValueMap → FeatureSource
find_feature_source block = elim (map_value block (codes "flags")) [
  | some value ↦ record { raw = value; family = x86 }
  | none ↦ elim (map_value block (codes "Features")) [
    | some value ↦ record { raw = value; family = arm }
    | none ↦ elim (map_value block (codes "isa")) [
      | some value ↦ record { raw = value; family = riscv }
      | none ↦ record { raw = []; family = unknown }
    ]
  ]
]

-- `mark_feature_fields`, beside the text of the flags
unfoldable pub mark_feature_fields : Status → StringField → IsaFeatures
mark_feature_fields status raw_flags = record {
  x86_fpu = unavailable status;
  x86_mmx = unavailable status;
  x86_sse = unavailable status;
  x86_sse2 = unavailable status;
  x86_sse3 = unavailable status;
  x86_ssse3 = unavailable status;
  x86_sse41 = unavailable status;
  x86_sse42 = unavailable status;
  x86_avx = unavailable status;
  x86_avx2 = unavailable status;
  x86_avx512f = unavailable status;
  x86_avx512dq = unavailable status;
  x86_avx512cd = unavailable status;
  x86_avx512bw = unavailable status;
  x86_avx512vl = unavailable status;
  x86_aes = unavailable status;
  x86_sha = unavailable status;
  x86_pclmulqdq = unavailable status;
  x86_rdrand = unavailable status;
  x86_rdseed = unavailable status;
  x86_xsave = unavailable status;
  x86_xsaveopt = unavailable status;
  x86_xsavec = unavailable status;
  x86_vmx = unavailable status;
  x86_ept = unavailable status;
  x86_svm = unavailable status;
  x86_npt = unavailable status;
  x86_tsc = unavailable status;
  x86_constant_tsc = unavailable status;
  x86_nonstop_tsc = unavailable status;
  x86_rdtscp = unavailable status;
  arm_neon = unavailable status;
  arm_asimd = unavailable status;
  arm_sve = unavailable status;
  arm_sve2 = unavailable status;
  arm_aes = unavailable status;
  arm_sha1 = unavailable status;
  arm_sha2 = unavailable status;
  arm_crc32 = unavailable status;
  arm_pauth = unavailable status;
  riscv_i = unavailable status;
  riscv_m = unavailable status;
  riscv_a = unavailable status;
  riscv_f = unavailable status;
  riscv_d = unavailable status;
  riscv_c = unavailable status;
  riscv_v = unavailable status;
  riscv_h = unavailable status;
  raw_flags = raw_flags;
}

-- the letters behind `rv32` or `rv64`, up to the first `_`
unfoldable pub riscv_base : Bytes → Bytes
riscv_base rest = elim (find b'_' rest) [ none ↦ rest | some i ↦ take i rest ]

abbrev pub has_byte : ℕ → Bytes → Bool
has_byte c s = elim (find c s) [ none ↦ false | some i ↦ true ]

-- the answer for the lowered text, and the part of it behind the prefix
unfoldable pub extension_in : Bytes → Bytes → ℕ → Bool
unfolding riscv_base
extension_in lower rest extension =
    let base = riscv_base rest in
    let implied_by_g =
      has_byte b'g' base
      && (extension == b'i'
          || extension == b'm'
          || extension == b'a'
          || extension == b'f'
          || extension == b'd') in
    implied_by_g
    || has_byte extension base
    || elim (find_text (b'_' ∷ extension ∷ []) lower) [ none ↦ false | some i ↦ true ]

unfoldable pub riscv_has_extension : Bytes → ℕ → Bool
unfolding extension_in
riscv_has_extension isa extension =
    let lower = lower_copy isa in
    elim (find_text (codes "rv32") lower) [
      | some start ↦ extension_in lower (drop (start + 4) lower) extension
      | none ↦ elim (find_text (codes "rv64") lower) [
        | some start ↦ extension_in lower (drop (start + 4) lower) extension
        | none ↦ false
      ]
    ]

-- the assignments under each family
unfoldable pub x86_features : IsaFeatures → List Bytes → IsaFeatures
x86_features features flags = record features {
  x86_fpu = bool_from_flag flags (codes "fpu");
  x86_mmx = bool_from_flag flags (codes "mmx");
  x86_sse = bool_from_flag flags (codes "sse");
  x86_sse2 = bool_from_flag flags (codes "sse2");
  x86_sse3 = any_flag flags (codes "sse3" ∷ codes "pni" ∷ []);
  x86_ssse3 = bool_from_flag flags (codes "ssse3");
  x86_sse41 = any_flag flags (codes "sse4_1" ∷ codes "sse4.1" ∷ []);
  x86_sse42 = any_flag flags (codes "sse4_2" ∷ codes "sse4.2" ∷ []);
  x86_avx = bool_from_flag flags (codes "avx");
  x86_avx2 = bool_from_flag flags (codes "avx2");
  x86_avx512f = bool_from_flag flags (codes "avx512f");
  x86_avx512dq = bool_from_flag flags (codes "avx512dq");
  x86_avx512cd = bool_from_flag flags (codes "avx512cd");
  x86_avx512bw = bool_from_flag flags (codes "avx512bw");
  x86_avx512vl = bool_from_flag flags (codes "avx512vl");
  x86_aes = bool_from_flag flags (codes "aes");
  x86_sha = any_flag flags (codes "sha" ∷ codes "sha_ni" ∷ []);
  x86_pclmulqdq = bool_from_flag flags (codes "pclmulqdq");
  x86_rdrand = bool_from_flag flags (codes "rdrand");
  x86_rdseed = bool_from_flag flags (codes "rdseed");
  x86_xsave = bool_from_flag flags (codes "xsave");
  x86_xsaveopt = bool_from_flag flags (codes "xsaveopt");
  x86_xsavec = bool_from_flag flags (codes "xsavec");
  x86_vmx = bool_from_flag flags (codes "vmx");
  x86_ept = bool_from_flag flags (codes "ept");
  x86_svm = bool_from_flag flags (codes "svm");
  x86_npt = bool_from_flag flags (codes "npt");
  x86_tsc = bool_from_flag flags (codes "tsc");
  x86_constant_tsc = bool_from_flag flags (codes "constant_tsc");
  x86_nonstop_tsc = bool_from_flag flags (codes "nonstop_tsc");
  x86_rdtscp = bool_from_flag flags (codes "rdtscp");
}

unfoldable pub arm_features : IsaFeatures → List Bytes → IsaFeatures
arm_features features flags = record features {
  arm_neon = any_flag flags (codes "neon" ∷ codes "asimd" ∷ []);
  arm_asimd = bool_from_flag flags (codes "asimd");
  arm_sve = bool_from_flag flags (codes "sve");
  arm_sve2 = bool_from_flag flags (codes "sve2");
  arm_aes = bool_from_flag flags (codes "aes");
  arm_sha1 = bool_from_flag flags (codes "sha1");
  arm_sha2 = bool_from_flag flags (codes "sha2");
  arm_crc32 = bool_from_flag flags (codes "crc32");
  arm_pauth = any_flag flags (codes "pauth" ∷ codes "paca" ∷ codes "pacg" ∷ []);
}

unfoldable pub riscv_features : IsaFeatures → Bytes → IsaFeatures
riscv_features features raw = record features {
  riscv_i = of_value (riscv_has_extension raw b'i');
  riscv_m = of_value (riscv_has_extension raw b'm');
  riscv_a = of_value (riscv_has_extension raw b'a');
  riscv_f = of_value (riscv_has_extension raw b'f');
  riscv_d = of_value (riscv_has_extension raw b'd');
  riscv_c = of_value (riscv_has_extension raw b'c');
  riscv_v = of_value (riscv_has_extension raw b'v');
  riscv_h = of_value (riscv_has_extension raw b'h');
}

unfoldable pub family_features : FeatureSource → IsaFeatures
family_features source =
    let features = mark_feature_fields unsupported (of_value source.raw) in
    let flags = word_set source.raw in
    elim source.family [
      | x86 ↦ x86_features features flags
      | arm ↦ arm_features features flags
      | riscv ↦ riscv_features features source.raw
      | unknown ↦ features
    ]

unfoldable pub isa_of_blocks : List KeyValueMap → IsaFeatures
isa_of_blocks [] = mark_feature_fields parse_error (unavailable parse_error)
isa_of_blocks (block ∷ blocks) =
    let source = find_feature_source block in
    if is_empty source.raw
    then mark_feature_fields not_found (unavailable not_found)
    else family_features source

unfoldable pub collect_isa : Files → CollectOptions → IsaFeatures
collect_isa h o =
    let cpuinfo = read_file h (proc_path o (codes "/cpuinfo")) in
    if available cpuinfo.status
    then isa_of_blocks (parse_colon_blocks cpuinfo.value)
    else mark_feature_fields cpuinfo.status (unavailable cpuinfo.status)
