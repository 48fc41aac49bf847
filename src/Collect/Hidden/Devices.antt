-- ===== src/Collect/Hidden/Devices.antt =====
-- src/block.cc, src/thermal.cc, src/pci.cc, src/cache.cc and src/gpu.cc on a host on which the hardware
-- addresses are other ones.
use archspec.Base.{◌≡◌, refl, ℕ, List, [], ◌∷◌, Bytes}
use archspec.Report.Options.{CollectOptions}
use archspec.Host.{Files}
use archspec.Collect.Hidden.{is_other}
use archspec.Collect.Hidden.Reads.{Readdressed, moved, moved_rules}
use archspec.Collect.CpuDirs.{cpu_dirs}
use archspec.Collect.Block.{read_bool_number, block_device, block_devices, collect_block}
use archspec.Collect.Thermal.{thermal_zone, thermal_zones, collect_thermal}
use archspec.Collect.Pci.{pci_device, pci_device_entries, collect_pci}
use archspec.Collect.Cache.{Seen, read_cache, index_loop, cache_loop, collect_cache}

module _ {o : CollectOptions} (fs : Files) (w : Readdressed o fs) where
  block_device-moved :
      (path name : Bytes) → block_device (moved fs w) o path name ≡ block_device fs o path name
  unfolding block_device read_bool_number is_other
  block_device-moved path name = simp moved_rules

  block_devices-moved :
      (root : Bytes) (names : List Bytes)
      → block_devices (moved fs w) o root names ≡ block_devices fs o root names
  unfolding block_devices
  block_devices-moved root [] = refl
  block_devices-moved root (name ∷ names) =
      simp (block_device-moved, block_devices-moved root names)

  pub collect_block-moved : collect_block (moved fs w) o ≡ collect_block fs o
  unfolding collect_block
  collect_block-moved = simp (moved_rules, block_devices-moved)

  thermal_zones-moved :
      (root : Bytes) (names : List Bytes)
      → thermal_zones (moved fs w) root names ≡ thermal_zones fs root names
  unfolding thermal_zones thermal_zone is_other
  thermal_zones-moved root [] = refl
  thermal_zones-moved root (name ∷ names) = simp (moved_rules, thermal_zones-moved root names)

  pub collect_thermal-moved : collect_thermal (moved fs w) o ≡ collect_thermal fs o
  unfolding collect_thermal
  collect_thermal-moved = simp (moved_rules, thermal_zones-moved)

  pci_device-moved :
      (path name : Bytes) → pci_device (moved fs w) path name ≡ pci_device fs path name
  unfolding pci_device is_other
  pci_device-moved path name = simp moved_rules

  pci_device_entries-moved :
      (root : Bytes) (names : List Bytes)
      → pci_device_entries (moved fs w) root names ≡ pci_device_entries fs root names
  unfolding pci_device_entries
  pci_device_entries-moved root [] = refl
  pci_device_entries-moved root (name ∷ names) =
      simp (pci_device-moved, pci_device_entries-moved root names)

  pub collect_pci-moved : collect_pci (moved fs w) o ≡ collect_pci fs o
  unfolding collect_pci
  collect_pci-moved = simp (moved_rules, pci_device_entries-moved)

  pub cpu_dirs-moved : cpu_dirs (moved fs w) o ≡ cpu_dirs fs o
  unfolding cpu_dirs
  cpu_dirs-moved = simp moved_rules

  read_cache-moved :
      (cpu : ℕ) (path : Bytes) → read_cache (moved fs w) cpu path ≡ read_cache fs cpu path
  unfolding read_cache is_other
  read_cache-moved cpu path = simp moved_rules

  index_loop-moved :
      (cpu : ℕ) (root : Bytes) (indices : List Bytes) (s : Seen)
      → index_loop (moved fs w) cpu root indices s ≡ index_loop fs cpu root indices s
  unfolding index_loop
  index_loop-moved cpu root [] s = refl
  index_loop-moved cpu root (index ∷ indices) s =
      simp (read_cache-moved, index_loop-moved cpu root indices)

  cache_loop-moved :
      (cpus : List (ℕ × Bytes)) (s : Seen) → cache_loop (moved fs w) cpus s ≡ cache_loop fs cpus s
  unfolding cache_loop
  cache_loop-moved [] s = refl
  cache_loop-moved ((cpu, path) ∷ cpus) s =
      simp (moved_rules, index_loop-moved, cache_loop-moved cpus)

  pub collect_cache-moved : collect_cache (moved fs w) o ≡ collect_cache fs o
  unfolding collect_cache
  collect_cache-moved = simp (cpu_dirs-moved, cache_loop-moved)
