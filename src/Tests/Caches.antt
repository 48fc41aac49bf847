-- ===== src/Tests/Caches.antt =====
-- The caches of two processors that share one.
use archspec.Base.{◌≡◌, [], ◌∷◌, some, codes, map}
use archspec.Base.Distinct.{Distinct}
use archspec.Report.Options.{default_options}
use archspec.Host.{Files}
use archspec.Collect.CpuDirs.{cpu_dirs}
use archspec.Collect.Cache.{cache_key, collect_cache}
use archspec.Collect.Cache.Unique.{collect_cache-Distinct}
use archspec.Collect.Cache.Firsts.{first_of_keys, all_caches, collect_cache-first_of_keys}
use archspec.Tests.Samples.{sample_files}

-- Every directory has the names of two processors and of a cache.
abbrev cache_files : Files
cache_files = record sample_files {
  directory = λ _. some (codes "cpu0" ∷ codes "cpu1" ∷ codes "index0" ∷ []);
}

collect_cache-Distinct_example :
    Distinct (map cache_key (collect_cache cache_files default_options).entries)
collect_cache-Distinct_example = collect_cache-Distinct cache_files default_options

collect_cache-first_of_keys_example :
    (collect_cache cache_files default_options).entries
    ≡ first_of_keys [] (all_caches cache_files (cpu_dirs cache_files default_options))
collect_cache-first_of_keys_example = collect_cache-first_of_keys cache_files default_options
