-- ===== src/Read/Rooted.antt =====
-- src/internal.hh: the first of some paths that exists below the configured roots.
use archspec.Base.{
  ◌≡◌, ◌⊎◌, refl, inl, inr, Bool-cases, true, List, [], ◌∷◌, Bytes, codes, if◌then◌else◌, drop,
}
use archspec.Text.{starts_with}
use archspec.Report.Options.{CollectOptions}
use archspec.Host.{Files}
use archspec.Read.{proc_path, sys_path, etc_path, dev_path, path_exists}

-- `rooted`, which the loop makes of a path
unfoldable pub rooted_path : CollectOptions → Bytes → Bytes
rooted_path o path =
    if starts_with path (codes "/proc")
    then proc_path o (drop 5 path)
    else if starts_with path (codes "/sys")
    then sys_path o (drop 4 path)
    else if starts_with path (codes "/etc")
    then etc_path o (drop 4 path)
    else if starts_with path (codes "/dev")
    then dev_path o (drop 4 path)
    else path

unfoldable pub first_existing_rooted : Files → CollectOptions → List Bytes → Bytes
first_existing_rooted h o [] = []
first_existing_rooted h o (path ∷ paths) =
    if path_exists h (rooted_path o path)
    then rooted_path o path
    else first_existing_rooted h o paths

first_existing_rooted_exists :
    (h : Files) (o : CollectOptions) (paths : List Bytes)
    → (first_existing_rooted h o paths ≡ []) ⊎ (h.exists (first_existing_rooted h o paths) ≡ true)
unfolding first_existing_rooted
first_existing_rooted_exists h o [] = inl refl
first_existing_rooted_exists h o (path ∷ paths) =
    elim (Bool-cases (h.exists (rooted_path o path))) [
      | inl e ↦ inr (rw (e, first_existing_rooted) e)
      | inr e ↦ rw (e, first_existing_rooted) (first_existing_rooted_exists h o paths)
    ]
