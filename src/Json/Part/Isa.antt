-- ===== src/Json/Part/Isa.antt =====
-- src/json.cc: the instruction set features as JSON, and as a document.
use archspec.Base.{◌≡◌, [], ◌∷◌, Bytes, codes}
use archspec.Report.Isa.{IsaFeatures}
use archspec.Json.Writer.{add_bool_field, add_string_field, new_object, object_text, ◌▷◌}
use archspec.Json.Value.{Value, object, print}
use archspec.Json.Builder.{builder_laws, bool_tree, string_tree}

-- `to_json(IsaFeatures)`
unfoldable pub isa_features_to_json : IsaFeatures → Bytes
isa_features_to_json features = object_text (
    new_object
    ▷ add_bool_field "x86_fpu" features.x86_fpu
    ▷ add_bool_field "x86_mmx" features.x86_mmx
    ▷ add_bool_field "x86_sse" features.x86_sse
    ▷ add_bool_field "x86_sse2" features.x86_sse2
    ▷ add_bool_field "x86_sse3" features.x86_sse3
    ▷ add_bool_field "x86_ssse3" features.x86_ssse3
    ▷ add_bool_field "x86_sse41" features.x86_sse41
    ▷ add_bool_field "x86_sse42" features.x86_sse42
    ▷ add_bool_field "x86_avx" features.x86_avx
    ▷ add_bool_field "x86_avx2" features.x86_avx2
    ▷ add_bool_field "x86_avx512f" features.x86_avx512f
    ▷ add_bool_field "x86_avx512dq" features.x86_avx512dq
    ▷ add_bool_field "x86_avx512cd" features.x86_avx512cd
    ▷ add_bool_field "x86_avx512bw" features.x86_avx512bw
    ▷ add_bool_field "x86_avx512vl" features.x86_avx512vl
    ▷ add_bool_field "x86_aes" features.x86_aes
    ▷ add_bool_field "x86_sha" features.x86_sha
    ▷ add_bool_field "x86_pclmulqdq" features.x86_pclmulqdq
    ▷ add_bool_field "x86_rdrand" features.x86_rdrand
    ▷ add_bool_field "x86_rdseed" features.x86_rdseed
    ▷ add_bool_field "x86_xsave" features.x86_xsave
    ▷ add_bool_field "x86_xsaveopt" features.x86_xsaveopt
    ▷ add_bool_field "x86_xsavec" features.x86_xsavec
    ▷ add_bool_field "x86_vmx" features.x86_vmx
    ▷ add_bool_field "x86_ept" features.x86_ept
    ▷ add_bool_field "x86_svm" features.x86_svm
    ▷ add_bool_field "x86_npt" features.x86_npt
    ▷ add_bool_field "x86_tsc" features.x86_tsc
    ▷ add_bool_field "x86_constant_tsc" features.x86_constant_tsc
    ▷ add_bool_field "x86_nonstop_tsc" features.x86_nonstop_tsc
    ▷ add_bool_field "x86_rdtscp" features.x86_rdtscp
    ▷ add_bool_field "arm_neon" features.arm_neon
    ▷ add_bool_field "arm_asimd" features.arm_asimd
    ▷ add_bool_field "arm_sve" features.arm_sve
    ▷ add_bool_field "arm_sve2" features.arm_sve2
    ▷ add_bool_field "arm_aes" features.arm_aes
    ▷ add_bool_field "arm_sha1" features.arm_sha1
    ▷ add_bool_field "arm_sha2" features.arm_sha2
    ▷ add_bool_field "arm_crc32" features.arm_crc32
    ▷ add_bool_field "arm_pauth" features.arm_pauth
    ▷ add_bool_field "riscv_i" features.riscv_i
    ▷ add_bool_field "riscv_m" features.riscv_m
    ▷ add_bool_field "riscv_a" features.riscv_a
    ▷ add_bool_field "riscv_f" features.riscv_f
    ▷ add_bool_field "riscv_d" features.riscv_d
    ▷ add_bool_field "riscv_c" features.riscv_c
    ▷ add_bool_field "riscv_v" features.riscv_v
    ▷ add_bool_field "riscv_h" features.riscv_h
    ▷ add_string_field "raw_flags" features.raw_flags)

abbrev pub isa_features_tree : IsaFeatures → Value
isa_features_tree features = object (
    (codes "x86_fpu", bool_tree features.x86_fpu)
    ∷ (codes "x86_mmx", bool_tree features.x86_mmx)
    ∷ (codes "x86_sse", bool_tree features.x86_sse)
    ∷ (codes "x86_sse2", bool_tree features.x86_sse2)
    ∷ (codes "x86_sse3", bool_tree features.x86_sse3)
    ∷ (codes "x86_ssse3", bool_tree features.x86_ssse3)
    ∷ (codes "x86_sse41", bool_tree features.x86_sse41)
    ∷ (codes "x86_sse42", bool_tree features.x86_sse42)
    ∷ (codes "x86_avx", bool_tree features.x86_avx)
    ∷ (codes "x86_avx2", bool_tree features.x86_avx2)
    ∷ (codes "x86_avx512f", bool_tree features.x86_avx512f)
    ∷ (codes "x86_avx512dq", bool_tree features.x86_avx512dq)
    ∷ (codes "x86_avx512cd", bool_tree features.x86_avx512cd)
    ∷ (codes "x86_avx512bw", bool_tree features.x86_avx512bw)
    ∷ (codes "x86_avx512vl", bool_tree features.x86_avx512vl)
    ∷ (codes "x86_aes", bool_tree features.x86_aes)
    ∷ (codes "x86_sha", bool_tree features.x86_sha)
    ∷ (codes "x86_pclmulqdq", bool_tree features.x86_pclmulqdq)
    ∷ (codes "x86_rdrand", bool_tree features.x86_rdrand)
    ∷ (codes "x86_rdseed", bool_tree features.x86_rdseed)
    ∷ (codes "x86_xsave", bool_tree features.x86_xsave)
    ∷ (codes "x86_xsaveopt", bool_tree features.x86_xsaveopt)
    ∷ (codes "x86_xsavec", bool_tree features.x86_xsavec)
    ∷ (codes "x86_vmx", bool_tree features.x86_vmx)
    ∷ (codes "x86_ept", bool_tree features.x86_ept)
    ∷ (codes "x86_svm", bool_tree features.x86_svm)
    ∷ (codes "x86_npt", bool_tree features.x86_npt)
    ∷ (codes "x86_tsc", bool_tree features.x86_tsc)
    ∷ (codes "x86_constant_tsc", bool_tree features.x86_constant_tsc)
    ∷ (codes "x86_nonstop_tsc", bool_tree features.x86_nonstop_tsc)
    ∷ (codes "x86_rdtscp", bool_tree features.x86_rdtscp)
    ∷ (codes "arm_neon", bool_tree features.arm_neon)
    ∷ (codes "arm_asimd", bool_tree features.arm_asimd)
    ∷ (codes "arm_sve", bool_tree features.arm_sve)
    ∷ (codes "arm_sve2", bool_tree features.arm_sve2)
    ∷ (codes "arm_aes", bool_tree features.arm_aes)
    ∷ (codes "arm_sha1", bool_tree features.arm_sha1)
    ∷ (codes "arm_sha2", bool_tree features.arm_sha2)
    ∷ (codes "arm_crc32", bool_tree features.arm_crc32)
    ∷ (codes "arm_pauth", bool_tree features.arm_pauth)
    ∷ (codes "riscv_i", bool_tree features.riscv_i)
    ∷ (codes "riscv_m", bool_tree features.riscv_m)
    ∷ (codes "riscv_a", bool_tree features.riscv_a)
    ∷ (codes "riscv_f", bool_tree features.riscv_f)
    ∷ (codes "riscv_d", bool_tree features.riscv_d)
    ∷ (codes "riscv_c", bool_tree features.riscv_c)
    ∷ (codes "riscv_v", bool_tree features.riscv_v)
    ∷ (codes "riscv_h", bool_tree features.riscv_h)
    ∷ (codes "raw_flags", string_tree features.raw_flags)
    ∷ [])

pub isa_features_to_json-tree :
    (features : IsaFeatures) → isa_features_to_json features ≡ print (isa_features_tree features)
unfolding isa_features_to_json
isa_features_to_json-tree features = simp (builder_laws)
