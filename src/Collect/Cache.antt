-- ===== src/Collect/Cache.antt =====
-- src/cache.cc.
pub mod Unique
pub mod Firsts
use archspec.Base.{
  ℕ, Bool, true, false, not, ◌&&◌, List, [], ◌∷◌, ◌++◌, Bytes, Option, none, some, codes,
  if◌then◌else◌, eq_bytes, contains,
}
use archspec.Text.{join_path, starts_with, lower_copy}
use archspec.Number.{to_decimal}
use archspec.Report.Field.{of_value, U32Field, U64Field, StringField}
use archspec.Report.Cache.{
  CacheType, unknown, data_cache, instruction, unified, cache_type_text, CacheInfo, CacheList,
}
use archspec.Report.Options.{CollectOptions}
use archspec.Host.{Files}
use archspec.Read.{
  list_dir, read_string_field, read_u32_field, read_u64_field, read_size_bytes_field,
}
use archspec.Collect.CpuDirs.{cpu_dirs}

unfoldable pub cache_type_from_string : Bytes → CacheType
cache_type_from_string value =
    let lower = lower_copy value in
    if eq_bytes lower (codes "data")
    then data_cache
    else if eq_bytes lower (codes "instruction")
    then instruction
    else if eq_bytes lower (codes "unified")
    then unified
    else unknown

-- a number, or `?`
abbrev number_or_mark : U64Field → Bytes
number_or_mark f = if f.valid then to_decimal f.value else codes "?"

unfoldable pub cache_key : CacheInfo → Bytes
cache_key cache =
    number_or_mark cache.level
    ++ (b'|'
        ∷ (cache_type_text cache.type
            ++ (b'|'
                ∷ (number_or_mark cache.size
                    ++ (b'|'
                        ∷ ((if cache.shared_cpu_list.valid
                              then cache.shared_cpu_list.value
                              else codes "?")
                            ++ (if not cache.shared_cpu_list.valid && cache.cpu_id.valid
                                then codes "|cpu=" ++ to_decimal cache.cpu_id.value
                                else [])))))))

-- `list.entries`, and the set `seen`
abbrev pub Seen : Type 0
Seen = List CacheInfo × List Bytes

-- `if (seen.insert(key).second) entries.push_back(cache)`
unfoldable pub keep_cache : CacheInfo → Seen → Seen
keep_cache cache (entries, seen) =
    let key = cache_key cache in
    if contains seen key then (entries, seen) else (entries ++ cache ∷ [], key ∷ seen)

module _ (h : Files) where
  unfoldable pub read_cache : ℕ → Bytes → CacheInfo
  read_cache cpu path =
      let type = read_string_field h (join_path path (codes "type")) in
      record {
        cpu_id = of_value cpu;
        level = read_u32_field h (join_path path (codes "level"));
        type = if type.valid then cache_type_from_string type.value else unknown;
        size = read_size_bytes_field h (join_path path (codes "size"));
        line_size = read_u64_field h (join_path path (codes "coherency_line_size"));
        associativity = read_u64_field h (join_path path (codes "ways_of_associativity"));
        sets = read_u64_field h (join_path path (codes "number_of_sets"));
        shared_cpu_list = read_string_field h (join_path path (codes "shared_cpu_list"));
      }

  -- the directories of one processor
  unfoldable pub index_loop : ℕ → Bytes → List Bytes → Seen → Seen
  index_loop cpu cache_root [] state = state
  index_loop cpu cache_root (index ∷ indices) state = index_loop cpu cache_root indices (
      if starts_with index (codes "index")
      then keep_cache (read_cache cpu (join_path cache_root index)) state
      else state)

  unfoldable pub cache_loop : List (ℕ × Bytes) → Seen → Seen
  cache_loop [] state = state
  cache_loop ((cpu, path) ∷ cpus) state =
      let cache_root = join_path path (codes "cache") in
      cache_loop cpus (index_loop cpu cache_root (list_dir h cache_root) state)

  unfoldable pub collect_cache : CollectOptions → CacheList
  collect_cache o = record { entries = (cache_loop (cpu_dirs h o) ([], [])).0 }
