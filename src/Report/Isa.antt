-- ===== src/Report/Isa.antt =====
-- include/aview.hh: the instruction set features.
use archspec.Report.Field.{
  BoolField, StringField, Default, init, bool_default, field_default, list_default, nat_default,
}

pub record IsaFeatures : Type 0 where
  pub x86_fpu : BoolField
  pub x86_mmx : BoolField
  pub x86_sse : BoolField
  pub x86_sse2 : BoolField
  pub x86_sse3 : BoolField
  pub x86_ssse3 : BoolField
  pub x86_sse41 : BoolField
  pub x86_sse42 : BoolField
  pub x86_avx : BoolField
  pub x86_avx2 : BoolField
  pub x86_avx512f : BoolField
  pub x86_avx512dq : BoolField
  pub x86_avx512cd : BoolField
  pub x86_avx512bw : BoolField
  pub x86_avx512vl : BoolField
  pub x86_aes : BoolField
  pub x86_sha : BoolField
  pub x86_pclmulqdq : BoolField
  pub x86_rdrand : BoolField
  pub x86_rdseed : BoolField
  pub x86_xsave : BoolField
  pub x86_xsaveopt : BoolField
  pub x86_xsavec : BoolField
  pub x86_vmx : BoolField
  pub x86_ept : BoolField
  pub x86_svm : BoolField
  pub x86_npt : BoolField
  pub x86_tsc : BoolField
  pub x86_constant_tsc : BoolField
  pub x86_nonstop_tsc : BoolField
  pub x86_rdtscp : BoolField
  pub arm_neon : BoolField
  pub arm_asimd : BoolField
  pub arm_sve : BoolField
  pub arm_sve2 : BoolField
  pub arm_aes : BoolField
  pub arm_sha1 : BoolField
  pub arm_sha2 : BoolField
  pub arm_crc32 : BoolField
  pub arm_pauth : BoolField
  pub riscv_i : BoolField
  pub riscv_m : BoolField
  pub riscv_a : BoolField
  pub riscv_f : BoolField
  pub riscv_d : BoolField
  pub riscv_c : BoolField
  pub riscv_v : BoolField
  pub riscv_h : BoolField
  pub raw_flags : StringField

instance unfoldable pub isa_features_default : Default IsaFeatures
isa_features_default = record {
  default = record {
    x86_fpu = init;
    x86_mmx = init;
    x86_sse = init;
    x86_sse2 = init;
    x86_sse3 = init;
    x86_ssse3 = init;
    x86_sse41 = init;
    x86_sse42 = init;
    x86_avx = init;
    x86_avx2 = init;
    x86_avx512f = init;
    x86_avx512dq = init;
    x86_avx512cd = init;
    x86_avx512bw = init;
    x86_avx512vl = init;
    x86_aes = init;
    x86_sha = init;
    x86_pclmulqdq = init;
    x86_rdrand = init;
    x86_rdseed = init;
    x86_xsave = init;
    x86_xsaveopt = init;
    x86_xsavec = init;
    x86_vmx = init;
    x86_ept = init;
    x86_svm = init;
    x86_npt = init;
    x86_tsc = init;
    x86_constant_tsc = init;
    x86_nonstop_tsc = init;
    x86_rdtscp = init;
    arm_neon = init;
    arm_asimd = init;
    arm_sve = init;
    arm_sve2 = init;
    arm_aes = init;
    arm_sha1 = init;
    arm_sha2 = init;
    arm_crc32 = init;
    arm_pauth = init;
    riscv_i = init;
    riscv_m = init;
    riscv_a = init;
    riscv_f = init;
    riscv_d = init;
    riscv_c = init;
    riscv_v = init;
    riscv_h = init;
    raw_flags = init;
  };
}
