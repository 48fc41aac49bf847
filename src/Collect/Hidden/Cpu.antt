-- ===== src/Collect/Hidden/Cpu.antt =====
-- src/cpu.cc on a host on which the hardware addresses are other ones.
use archspec.Base.{◌≡◌, refl, ℕ, List, [], ◌∷◌, Bytes, All, true, codes}
use archspec.Report.Options.{CollectOptions}
use archspec.Host.{Files}
use archspec.Read.{sys_path}
use archspec.KeyValue.{KeyValueMap}
use archspec.Collect.Hidden.{is_other, IsOther, is_other-IsOther}
use archspec.Collect.Hidden.Reads.{Readdressed, moved, moved_rules, string-moved}
use archspec.Collect.Cpu.Topology.{topology_entry, topology_loop, topology_of}
use archspec.Collect.Cpu.Identity.{vendor_loop, first_existing_hypervisor_vendor}

module _ {o : CollectOptions} (fs : Files) (w : Readdressed o fs) where
  topology_loop-moved :
      (by_id : List (ℕ × KeyValueMap)) (cpus : List (ℕ × Bytes))
      → topology_loop (moved fs w) by_id cpus ≡ topology_loop fs by_id cpus
  unfolding topology_loop topology_entry is_other
  topology_loop-moved by_id [] = refl
  topology_loop-moved by_id ((id, path) ∷ cpus) = simp (moved_rules, topology_loop-moved by_id cpus)

  pub topology_of-moved :
      (blocks : List KeyValueMap) (cpus : List (ℕ × Bytes))
      → topology_of (moved fs w) blocks cpus ≡ topology_of fs blocks cpus
  unfolding topology_of
  topology_of-moved blocks cpus = simp topology_loop-moved

  vendor_loop-moved :
      (paths : List Bytes)
      → All (IsOther o) paths
      → vendor_loop (moved fs w) paths ≡ vendor_loop fs paths
  unfolding vendor_loop
  vendor_loop-moved [] _ = refl
  vendor_loop-moved (path ∷ paths) (h, hs) =
      simp (string-moved fs w path true h, vendor_loop-moved paths hs)

  pub first_existing-moved :
      first_existing_hypervisor_vendor (moved fs w) o ≡ first_existing_hypervisor_vendor fs o
  unfolding first_existing_hypervisor_vendor is_other
  first_existing-moved =
      vendor_loop-moved
        (sys_path o (codes "/hypervisor/type")
          ∷ sys_path o (codes "/class/dmi/id/product_name")
          ∷ sys_path o (codes "/class/dmi/id/sys_vendor")
          ∷ [])
        (
          is_other-IsOther o _ _ refl,
          (is_other-IsOther o _ _ refl, (is_other-IsOther o _ _ refl, tt)),
        )
