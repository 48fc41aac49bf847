-- ===== src/Tests/Riscv.antt =====
-- An ISA string of RISC-V.
use archspec.Base.{◌≡◌, refl, true, [], ◌∷◌, codes, arith}
use archspec.Text.{lower_copy, find_text}
use archspec.Collect.Isa.{riscv_has_extension}
use archspec.Collect.Isa.Riscv.{
  RiscvIsa, IsIsa, has_extension, print_isa, riscv_has_extension-print_isa,
}

abbrev riscv_sample : RiscvIsa
riscv_sample = record { wide = true; letters = codes "gc"; names = codes "zba" ∷ [] }

riscv_sample-IsIsa : IsIsa riscv_sample
unfolding find_text archspec.Text.starts_with
riscv_sample-IsIsa = (
  (omega arith, (omega arith, tt)),
  (((refl, (omega arith, (omega arith, (omega arith, tt)))), tt), refl),
)

riscv_sample_lowered : lower_copy (codes "RV64GC_Zba") ≡ print_isa riscv_sample
unfolding lower_copy
riscv_sample_lowered = refl

riscv_has_extension-print_isa_example :
    riscv_has_extension (codes "RV64GC_Zba") b'd' ≡ has_extension riscv_sample b'd'
riscv_has_extension-print_isa_example =
    riscv_has_extension-print_isa riscv_sample (codes "RV64GC_Zba") b'd' riscv_sample-IsIsa
      riscv_sample_lowered
