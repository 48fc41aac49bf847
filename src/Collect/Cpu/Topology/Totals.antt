-- ===== src/Collect/Cpu/Topology/Totals.antt =====
-- src/cpu.cc: the sets and maps of the counting loop.
use archspec.Base.{
  ◌≡◌, refl, ℕ, suc, ◌+◌, Bool, false, ◌&&◌, ◌||◌, List, [], ◌∷◌, length, Bool-cases, inl, inr,
  arith, if◌then◌else◌, ◌==◌,
}
use archspec.Report.Cpu.{CpuTopologyEntry}
use archspec.Collect.Cpu.Topology.{
  Counts, member, insert_number, insert_core, count_thread, count_entry, count_loop, count_topology,
}

-- the processors whose package and core are known
abbrev pub located : List CpuTopologyEntry → ℕ
located [] = 0
located (entry ∷ entries) =
    if entry.package_id.valid && entry.core_id.valid then suc (located entries) else located entries

-- all threads, and all cores
abbrev pub sum_threads : List ((ℕ × ℕ) × ℕ) → ℕ
sum_threads [] = 0
sum_threads ((k, n) ∷ m) = n + sum_threads m

abbrev pub sum_cores : List (ℕ × List ℕ) → ℕ
sum_cores [] = 0
sum_cores ((p, cores) ∷ m) = length cores + sum_cores m

-- The maps have an entry for a package, and for a core of a package.
abbrev has_package : ℕ → List (ℕ × List ℕ) → Bool
has_package pkg [] = false
has_package pkg ((p, cores) ∷ m) = p == pkg || has_package pkg m

abbrev has_core : ℕ → ℕ → List (ℕ × List ℕ) → Bool
has_core pkg core [] = false
has_core pkg core ((p, cores) ∷ m) = if p == pkg then member core cores else has_core pkg core m

abbrev has_thread : ℕ → ℕ → List ((ℕ × ℕ) × ℕ) → Bool
has_thread pkg core [] = false
has_thread pkg core (((p, c), n) ∷ m) = (p == pkg && c == core) || has_thread pkg core m

sum_threads-count_thread :
    (pkg core : ℕ) (m : List ((ℕ × ℕ) × ℕ))
    → sum_threads (count_thread pkg core m) ≡ suc (sum_threads m)
unfolding count_thread
sum_threads-count_thread pkg core [] = refl
sum_threads-count_thread pkg core (((p, c), n) ∷ m) =
    ground (arith, sum_threads-count_thread pkg core m)

length-count_thread :
    (pkg core : ℕ) (m : List ((ℕ × ℕ) × ℕ))
    → length (count_thread pkg core m)
      ≡ (if has_thread pkg core m then length m else suc (length m))
unfolding count_thread
length-count_thread pkg core [] = refl
length-count_thread pkg core (((p, c), n) ∷ m) = ground (arith, length-count_thread pkg core m)

has_thread-count_thread :
    (p c pkg core : ℕ) (m : List ((ℕ × ℕ) × ℕ))
    → has_thread p c (count_thread pkg core m) ≡ (pkg == p && core == c) || has_thread p c m
unfolding count_thread
has_thread-count_thread p c pkg core [] = refl
has_thread-count_thread p c pkg core (((q, d), n) ∷ m) =
    ground (arith, has_thread-count_thread p c pkg core m)

sum_cores-insert_core :
    (pkg core : ℕ) (m : List (ℕ × List ℕ))
    → sum_cores (insert_core pkg core m)
      ≡ (if has_core pkg core m then sum_cores m else suc (sum_cores m))
unfolding insert_core insert_number
sum_cores-insert_core pkg core [] = refl
sum_cores-insert_core pkg core ((p, cores) ∷ m) = ground (arith, sum_cores-insert_core pkg core m)

has_core-insert_core :
    (p c pkg core : ℕ) (m : List (ℕ × List ℕ))
    → has_core p c (insert_core pkg core m) ≡ (pkg == p && core == c) || has_core p c m
unfolding insert_core insert_number member
has_core-insert_core p c pkg core [] = ground arith
has_core-insert_core p c pkg core ((q, cores) ∷ m) =
    ground (arith, has_core-insert_core p c pkg core m)

length-insert_core :
    (pkg core : ℕ) (m : List (ℕ × List ℕ))
    → length (insert_core pkg core m) ≡ (if has_package pkg m then length m else suc (length m))
unfolding insert_core
length-insert_core pkg core [] = refl
length-insert_core pkg core ((p, cores) ∷ m) = ground (arith, length-insert_core pkg core m)

has_package-insert_core :
    (q pkg core : ℕ) (m : List (ℕ × List ℕ))
    → has_package q (insert_core pkg core m) ≡ pkg == q || has_package q m
unfolding insert_core
has_package-insert_core q pkg core [] = ground arith
has_package-insert_core q pkg core ((p, cores) ∷ m) =
    ground (arith, has_package-insert_core q pkg core m)

-- The sets and maps agree, and hold as many threads as processors have been counted.
abbrev Agrees : ℕ → Counts → Type 0
Agrees n c =
    (sum_threads c.threads_by_core ≡ n)
    × ((sum_cores c.cores_by_package ≡ length c.threads_by_core)
        × ((length c.cores_by_package ≡ length c.packages)
            × (((p d : ℕ) → has_core p d c.cores_by_package ≡ has_thread p d c.threads_by_core)
                × ((p : ℕ) → has_package p c.cores_by_package ≡ member p c.packages))))

count_core-Agrees :
    (n pkg core : ℕ) (c : Counts)
    → Agrees n c
    → Agrees (suc n) (record {
      packages = insert_number pkg c.packages;
      cores_by_package = insert_core pkg core c.cores_by_package;
      threads_by_core = count_thread pkg core c.threads_by_core;
    })
unfolding insert_number member
count_core-Agrees n pkg core c (threads, (cores, (packages, (same_core, same_package)))) = (
  omega (arith, sum_threads-count_thread pkg core c.threads_by_core),
  (
    ground (
      arith,
      sum_cores-insert_core pkg core c.cores_by_package,
      length-count_thread pkg core c.threads_by_core,
      same_core pkg core,
    ),
    (
      ground (arith, length-insert_core pkg core c.cores_by_package, same_package pkg),
      (
        (λ p d. ground (
          arith,
          has_core-insert_core p d pkg core c.cores_by_package,
          has_thread-count_thread p d pkg core c.threads_by_core,
          same_core p d,
        )),
        λ p. ground (arith, has_package-insert_core p pkg core c.cores_by_package, same_package p),
      ),
    ),
  ),
)

count_entry-Agrees :
    (entry : CpuTopologyEntry) (n : ℕ) (c : Counts)
    → Agrees n c
    → Agrees
        (if entry.package_id.valid && entry.core_id.valid then suc n else n)
        (count_entry entry c)
unfolding count_entry
count_entry-Agrees entry n c h = elim (Bool-cases entry.package_id.valid) [
  | inr e ↦ rw (e, count_entry) h
  | inl e ↦ elim (Bool-cases entry.core_id.valid) [
    | inr d ↦ rw (e, d, count_entry) h
    | inl d ↦
        rw (e, d, count_entry) (count_core-Agrees n entry.package_id.value entry.core_id.value c h)
  ]
]

count_loop-Agrees :
    (entries : List CpuTopologyEntry) (n total : ℕ) (c : Counts)
    → total ≡ n + located entries
    → Agrees n c
    → Agrees total (count_loop entries c)
unfolding count_loop
count_loop-Agrees [] n total c e h = (omega (arith, h.0), h.1)
count_loop-Agrees (entry ∷ entries) n total c e h =
    count_loop-Agrees entries _ total _ (ground arith) (count_entry-Agrees entry n c h)

-- The counts of a topology agree: there are as many threads as processors with a known package and
-- core, as many cores in the packages' sets as there are cores with threads, and as many packages
-- with cores as there are packages.
pub count_topology_totals :
    (entries : List CpuTopologyEntry)
    → (sum_threads (count_topology entries).threads_by_core ≡ located entries)
      × ((sum_cores (count_topology entries).cores_by_package
            ≡ length (count_topology entries).threads_by_core)
          × (length (count_topology entries).cores_by_package
              ≡ length (count_topology entries).packages))
unfolding count_topology member
count_topology_totals entries =
    let h =
      count_loop-Agrees entries 0 (located entries) _ (omega arith)
        (refl, (refl, (refl, ((λ p d. refl), λ p. refl)))) in
    (h.0, (h.1.0, h.1.1.0))
