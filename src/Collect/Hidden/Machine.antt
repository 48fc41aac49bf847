-- ===== src/Collect/Hidden/Machine.antt =====
-- src/power.cc, src/platform.cc, src/virtualization.cc, src/perf.cc, src/isa.cc and src/memory.cc on a
-- host on which the hardware addresses are other ones.
use archspec.Base.{
  fun_ext, ◌/◌, false, ◌≡◌, refl, ap, ◌∙◌, ℕ, List, [], ◌∷◌, Bytes, All, true, codes, Option-cases,
  inl, inr,
}
use archspec.Text.{join_path}
use archspec.Report.Field.{Status, not_found, U64Field, of_value, nat_default}
use archspec.Report.Options.{CollectOptions}
use archspec.Host.{Files}
use archspec.Read.{sys_path, read_u64_field}
use archspec.Collect.Hidden.{is_other, IsOther, is_other-IsOther}
use archspec.Collect.Hidden.Reads.{Readdressed, moved, moved_rules, u64-moved, string-moved}
use archspec.Collect.CpuFlags.{cpu_flags}
use archspec.Collect.Isa.{collect_isa}
use archspec.Collect.Power.{
  keep_status, khz_loop, read_khz_as_mhz, Supplies, supply_step, supply_loop, collect_power,
}
use archspec.Collect.Virtualization.{
  vendor_loop, detected_hypervisor_vendor, iommu_present, collect_virtualization,
}
use archspec.Collect.Memory.{
  transparent_hugepages_enabled, numa_node, numa_nodes, node_number, collect_numa_nodes,
}

module _ {o : CollectOptions} (fs : Files) (w : Readdressed o fs) where
  pub cpu_flags-moved : (keys : List Bytes) → cpu_flags (moved fs w) o keys ≡ cpu_flags fs o keys
  unfolding cpu_flags is_other
  cpu_flags-moved keys = simp moved_rules

  pub collect_isa-moved : collect_isa (moved fs w) o ≡ collect_isa fs o
  unfolding collect_isa is_other
  collect_isa-moved = simp moved_rules

  khz_loop-moved :
      (paths : List Bytes)
      → All (IsOther o) paths
      → (last : Status) → khz_loop (moved fs w) last paths ≡ khz_loop fs last paths
  unfolding khz_loop
  khz_loop-moved [] _ last = refl
  khz_loop-moved (path ∷ paths) (h, hs) last =
      let next = λ (khz : U64Field) (rest : Status → U64Field). elim khz.valid as (λ _. U64Field) [
        | true ↦ of_value (khz.value / 1000)
        | false ↦ rest (keep_status last khz.status)
      ] in
      ap (λ khz. next khz (λ status. khz_loop (moved fs w) status paths)) (u64-moved fs w path 1 h)
      ∙ ap (next (read_u64_field fs path)) (fun_ext (khz_loop-moved paths hs))

  read_khz-moved :
      (root s t : Bytes)
      → is_other s ≡ true
      → is_other t ≡ true
      → read_khz_as_mhz (moved fs w) (join_path root s ∷ join_path root t ∷ [])
        ≡ read_khz_as_mhz fs (join_path root s ∷ join_path root t ∷ [])
  unfolding read_khz_as_mhz
  read_khz-moved root s t h g =
      khz_loop-moved (join_path root s ∷ join_path root t ∷ [])
        (is_other-IsOther o root s h, (is_other-IsOther o root t g, tt)) not_found

  supply_step-moved :
      (path : Bytes) (s : Supplies) → supply_step (moved fs w) path s ≡ supply_step fs path s
  unfolding supply_step is_other
  supply_step-moved path s = simp moved_rules

  supply_loop-moved :
      (root : Bytes) (names : List Bytes) (s : Supplies)
      → supply_loop (moved fs w) root names s ≡ supply_loop fs root names s
  unfolding supply_loop
  supply_loop-moved root [] s = refl
  supply_loop-moved root (name ∷ names) s = simp (supply_step-moved, supply_loop-moved root names)

  pub collect_power-moved : collect_power (moved fs w) o ≡ collect_power fs o
  unfolding collect_power is_other
  collect_power-moved = simp (moved_rules, supply_loop-moved, read_khz-moved)

  vendor_loop-moved :
      (paths : List Bytes)
      → All (IsOther o) paths
      → vendor_loop (moved fs w) paths ≡ vendor_loop fs paths
  unfolding vendor_loop
  vendor_loop-moved [] _ = refl
  vendor_loop-moved (path ∷ paths) (h, hs) =
      simp (string-moved fs w path true h, vendor_loop-moved paths hs)

  detected-moved : detected_hypervisor_vendor (moved fs w) o ≡ detected_hypervisor_vendor fs o
  unfolding detected_hypervisor_vendor is_other
  detected-moved =
      vendor_loop-moved
        (sys_path o (codes "/hypervisor/type")
          ∷ sys_path o (codes "/class/dmi/id/product_name")
          ∷ sys_path o (codes "/class/dmi/id/sys_vendor")
          ∷ [])
        (
          is_other-IsOther o _ _ refl,
          (is_other-IsOther o _ _ refl, (is_other-IsOther o _ _ refl, tt)),
        )

  pub collect_virtualization-moved :
      collect_virtualization (moved fs w) o ≡ collect_virtualization fs o
  unfolding collect_virtualization iommu_present
  collect_virtualization-moved = simp (moved_rules, cpu_flags-moved, detected-moved)

  numa_node-moved : (path : Bytes) (id : ℕ) → numa_node (moved fs w) path id ≡ numa_node fs path id
  unfolding numa_node is_other
  numa_node-moved path id = simp moved_rules

  numa_nodes-moved :
      (root : Bytes) (names : List Bytes)
      → numa_nodes (moved fs w) root names ≡ numa_nodes fs root names
  unfolding numa_nodes
  numa_nodes-moved root [] = refl
  numa_nodes-moved root (name ∷ names) = elim (Option-cases (node_number name)) [
    | inl e ↦ rw (e, numa_nodes) (numa_nodes-moved root names)
    | inr (id, e) ↦ rw (e, numa_nodes) (simp (numa_node-moved, numa_nodes-moved root names))
  ]

  pub transparent-moved :
      transparent_hugepages_enabled (moved fs w) o ≡ transparent_hugepages_enabled fs o
  unfolding transparent_hugepages_enabled is_other
  transparent-moved = simp moved_rules

  pub collect_numa_nodes-moved : collect_numa_nodes (moved fs w) o ≡ collect_numa_nodes fs o
  unfolding collect_numa_nodes
  collect_numa_nodes-moved = simp (moved_rules, numa_nodes-moved)
