-- ===== src/Collect/Cache/Firsts.antt =====
-- src/cache.cc: the caches of a report against those that the directories describe.
use archspec.Base.{
  ◌≡◌, refl, ◌∙◌, sym, subst, eq_bytes, eq_bytes_iff, ap, true, false, List, [], ◌∷◌, ◌++◌,
  append_assoc, append-nil, Bytes, ℕ, contains, Bool-cases, inl, inr, codes, arith, if◌then◌else◌,
}
use archspec.Base.Distinct.{contains-append}
use archspec.Text.{join_path, starts_with}
use archspec.Read.{list_dir}
use archspec.Report.Options.{CollectOptions}
use archspec.Report.Cache.{CacheInfo}
use archspec.Host.{Files}
use archspec.Collect.CpuDirs.{cpu_dirs}
use archspec.Collect.Cache.{
  cache_key, Seen, keep_cache, read_cache, index_loop, cache_loop, collect_cache,
}

-- The caches that the names below one processor's directory describe.
abbrev pub index_caches : Files → ℕ → Bytes → List Bytes → List CacheInfo
index_caches h cpu root [] = []
index_caches h cpu root (index ∷ indices) =
    (if starts_with index (codes "index") then read_cache h cpu (join_path root index) ∷ [] else [])
    ++ index_caches h cpu root indices

-- Those of every processor, in the order of the processors.
abbrev pub all_caches : Files → List (ℕ × Bytes) → List CacheInfo
all_caches h [] = []
all_caches h ((cpu, path) ∷ cpus) =
    let root = join_path path (codes "cache") in
    index_caches h cpu root (list_dir h root) ++ all_caches h cpus

-- The caches whose key no earlier one has.
abbrev pub first_of_keys : List Bytes → List CacheInfo → List CacheInfo
first_of_keys before [] = []
first_of_keys before (cache ∷ caches) =
    (if contains before (cache_key cache) then [] else cache ∷ [])
    ++ first_of_keys (before ++ cache_key cache ∷ []) caches

abbrev keep_all : List CacheInfo → Seen → Seen
keep_all [] s = s
keep_all (cache ∷ caches) s = keep_all caches (keep_cache cache s)

keep_all-append :
    (xs ys : List CacheInfo) (s : Seen) → keep_all (xs ++ ys) s ≡ keep_all ys (keep_all xs s)
keep_all-append [] ys s = refl
keep_all-append (x ∷ xs) ys s = keep_all-append xs ys (keep_cache x s)

keep_cache-old :
    (cache : CacheInfo) (s : Seen) → contains s.1 (cache_key cache) ≡ true → keep_cache cache s ≡ s
unfolding keep_cache
keep_cache-old cache (entries, seen) e = rw e refl

keep_cache-new :
    (cache : CacheInfo) (s : Seen)
    → contains s.1 (cache_key cache) ≡ false
    → keep_cache cache s ≡ (s.0 ++ cache ∷ [], cache_key cache ∷ s.1)
unfolding keep_cache
keep_cache-new cache (entries, seen) e = rw e refl

-- A text that is repeated adds nothing to a list.
contains-repeated :
    (before : List Bytes) (k a : Bytes)
    → contains before k ≡ true
    → contains (before ++ k ∷ []) a ≡ contains before a
unfolding contains
contains-repeated before k a h = elim (Bool-cases (eq_bytes k a)) [
  | inl e ↦
      let same = subst (λ x. contains before x ≡ true) ((eq_bytes_iff k a).0 e) h in
      rw contains-append (ground (arith, same))
  | inr e ↦ rw contains-append (ground (arith, e))
]

keep_all-first_of_keys :
    (caches entries : List CacheInfo) (seen before : List Bytes)
    → ((a : Bytes) → contains seen a ≡ contains before a)
    → (keep_all caches (entries, seen)).0 ≡ entries ++ first_of_keys before caches
unfolding contains
keep_all-first_of_keys [] entries seen before same = sym (append-nil entries)
keep_all-first_of_keys (cache ∷ caches) entries seen before same =
    let key = cache_key cache in
    elim (Bool-cases (contains seen key)) [
      | inl e ↦
          let met = sym (same key) ∙ e in
          ap (λ s. (keep_all caches s).0) (keep_cache-old cache (entries, seen) e)
          ∙ (keep_all-first_of_keys caches entries seen (before ++ key ∷ [])
                (λ a. same a ∙ sym (contains-repeated before key a met))
              ∙ rw met refl)
      | inr e ↦
          let fresh = sym (same key) ∙ e in
          ap (λ s. (keep_all caches s).0) (keep_cache-new cache (entries, seen) e)
          ∙ (keep_all-first_of_keys caches (entries ++ cache ∷ []) (key ∷ seen) (before ++ key ∷ [])
                (λ a. rw contains-append (ground (arith, same a)))
              ∙ rw (fresh, append_assoc) refl)
    ]

index_loop-keep_all :
    (h : Files) (cpu : ℕ) (root : Bytes) (indices : List Bytes) (s : Seen)
    → index_loop h cpu root indices s ≡ keep_all (index_caches h cpu root indices) s
unfolding index_loop
index_loop-keep_all h cpu root [] s = refl
index_loop-keep_all h cpu root (index ∷ indices) s =
    elim (Bool-cases (starts_with index (codes "index"))) [
      | inl e ↦ rw e (index_loop-keep_all h cpu root indices _)
      | inr e ↦ rw e (index_loop-keep_all h cpu root indices s)
    ]

cache_loop-keep_all :
    (h : Files) (cpus : List (ℕ × Bytes)) (s : Seen)
    → cache_loop h cpus s ≡ keep_all (all_caches h cpus) s
unfolding cache_loop
cache_loop-keep_all h [] s = refl
cache_loop-keep_all h ((cpu, path) ∷ cpus) s =
    let root = join_path path (codes "cache") in
    cache_loop-keep_all h cpus (index_loop h cpu root (list_dir h root) s)
    ∙ (ap (keep_all (all_caches h cpus)) (index_loop-keep_all h cpu root (list_dir h root) s)
        ∙ sym (keep_all-append (index_caches h cpu root (list_dir h root)) (all_caches h cpus) s))

-- The caches of a report are those of every index directory of every processor, in their order,
-- without the ones whose key an earlier cache has.
pub collect_cache-first_of_keys :
    (h : Files) (o : CollectOptions)
    → (collect_cache h o).entries ≡ first_of_keys [] (all_caches h (cpu_dirs h o))
unfolding collect_cache
collect_cache-first_of_keys h o =
    ap (λ s. s.0) (cache_loop-keep_all h (cpu_dirs h o) ([], []))
    ∙ keep_all-first_of_keys (all_caches h (cpu_dirs h o)) [] [] [] (λ a. refl)
