-- ===== src/Collect/Cache/Unique.antt =====
-- src/cache.cc: the keys of the entries, and the set `seen`.
use archspec.Base.{
  ◌≡◌, refl, Bool, true, false, List, [], ◌∷◌, ◌++◌, Bytes, ℕ, map, contains, Bool-cases, inl, inr,
  arith, if◌then◌else◌,
}
use archspec.Base.Distinct.{Distinct, Distinct-append, contains-append}
use archspec.Report.Options.{CollectOptions}
use archspec.Report.Cache.{CacheInfo}
use archspec.Host.{Files}
use archspec.Collect.Cache.{cache_key, Seen, keep_cache, index_loop, cache_loop, collect_cache}

abbrev pub keys : List CacheInfo → List Bytes
keys entries = map cache_key entries

-- The set holds the keys of the entries, and these are distinct.
abbrev IsExact : Seen → Type 0
IsExact (entries, seen) =
    ((a : Bytes) → contains seen a ≡ contains (keys entries) a) × Distinct (keys entries)

keys-append : (xs ys : List CacheInfo) → keys (xs ++ ys) ≡ keys xs ++ keys ys
keys-append [] ys = refl
keys-append (x ∷ xs) ys = rw (keys-append xs ys)

keep_cache-IsExact : (cache : CacheInfo) (s : Seen) → IsExact s → IsExact (keep_cache cache s)
unfolding keep_cache contains
keep_cache-IsExact cache (entries, seen) (same, distinct) =
    elim (Bool-cases (contains seen (cache_key cache))) [
      | inl e ↦ rw e (same, distinct)
      | inr e ↦
          rw (e, keys-append)
            (
              (λ a. rw contains-append (ground (arith, same a))),
              Distinct-append (keys entries) (cache_key cache) distinct
                  (ground (arith, same (cache_key cache))),
            )
    ]

choose-IsExact : (b : Bool) (s t : Seen) → IsExact s → IsExact t → IsExact (if b then s else t)
choose-IsExact true s t hs ht = hs
choose-IsExact false s t hs ht = ht

index_loop-IsExact :
    (h : Files) (cpu : ℕ) (root : Bytes) (indices : List Bytes) (s : Seen)
    → IsExact s
    → IsExact (index_loop h cpu root indices s)
unfolding index_loop
index_loop-IsExact h cpu root [] s ok = ok
index_loop-IsExact h cpu root (index ∷ indices) s ok =
    index_loop-IsExact h cpu root indices _ (choose-IsExact _ _ s (keep_cache-IsExact _ s ok) ok)

cache_loop-IsExact :
    (h : Files) (cpus : List (ℕ × Bytes)) (s : Seen) → IsExact s → IsExact (cache_loop h cpus s)
unfolding cache_loop
cache_loop-IsExact h [] s ok = ok
cache_loop-IsExact h ((cpu, path) ∷ cpus) s ok =
    cache_loop-IsExact h cpus _ (index_loop-IsExact h cpu _ _ s ok)

-- No two caches of a report have one key.
pub collect_cache-Distinct :
    (h : Files) (o : CollectOptions) → Distinct (map cache_key (collect_cache h o).entries)
unfolding collect_cache
collect_cache-Distinct h o = (cache_loop-IsExact h _ ([], []) ((λ a. refl), tt)).1
