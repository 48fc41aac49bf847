-- ===== src/Collect/Hidden/Platform.antt =====
-- src/platform.cc on a host on which the hardware addresses are other ones.
use archspec.Base.{
  ◌≡◌, ◌≢◌, refl, ap, ◌∙◌, sym, ℕ, false, ◌||◌, ◌==◌, List, [], ◌∷◌, ◌++◌, append_assoc, Bytes,
  codes, eq_bytes, is_empty, Bool-cases, inl, inr, arith, if◌then◌else◌,
}
use archspec.Text.{join_path}
use archspec.Report.Options.{CollectOptions}
use archspec.Host.{Files}
use archspec.Read.{sys_path}
use archspec.Collect.Hidden.{is_other, IsOther, hardware_path}
use archspec.Collect.Hidden.Reads.{Readdressed, moved, moved_rules, file-moved}
use archspec.Collect.Platform.{secure_boot_loop, collect_secure_boot, collect_platform}

-- what a root puts before an absolute path
base : Bytes → Bytes
unfolding eq_bytes
base root = if is_empty root || eq_bytes root (codes "/") then [] else root

join_path-base : (root s : Bytes) → join_path root (b'/' ∷ s) ≡ base root ++ b'/' ∷ s
unfolding join_path base
join_path-base root s = elim (Bool-cases (is_empty root || eq_bytes root (codes "/"))) [
  | inl e ↦ rw (e) refl
  | inr e ↦ rw (e) refl
]

two_bytes :
    (front : Bytes) (c d : ℕ) (s : Bytes)
    → (is_empty (front ++ c ∷ d ∷ s) || eq_bytes (front ++ c ∷ d ∷ s) (codes "/")) ≡ false
unfolding eq_bytes
two_bytes [] c d s = ground arith
two_bytes (a ∷ []) c d s = ground arith
two_bytes (a ∷ b ∷ front) c d s = ground arith

-- A path of two bytes or more stays at the front of what is joined to it.
join_path-front :
    (front : Bytes) (c d : ℕ) (s t : Bytes)
    → (rest : Bytes) × (join_path (front ++ c ∷ d ∷ s) t ≡ front ++ c ∷ d ∷ rest)
unfolding join_path
join_path-front front c d s [] = (s, refl)
join_path-front front c d s (e ∷ t) = elim (Bool-cases (e == b'/')) [
  | inl q ↦ (s ++ e ∷ t, rw (two_bytes front c d s, q) (append_assoc front (c ∷ d ∷ s) (e ∷ t)))
  | inr q ↦ (
    s ++ b'/' ∷ e ∷ t,
    rw (two_bytes front c d s, q) (append_assoc front (c ∷ d ∷ s) (b'/' ∷ e ∷ t)),
  )
]

joined-front :
    (root : Bytes) (d : ℕ) (s t : Bytes)
    → (rest : Bytes) × (join_path (join_path root (b'/' ∷ d ∷ s)) t ≡ base root ++ b'/' ∷ d ∷ rest)
joined-front root d s t =
    let (rest, p) = join_path-front (base root) b'/' d s t in
    (rest, ap (λ path. join_path path t) (join_path-base root (d ∷ s)) ∙ p)

hardware_path-front :
    (o : CollectOptions) (name : Bytes)
    → (rest : Bytes) × (hardware_path o name ≡ base o.sysfs_root ++ b'/' ∷ b'c' ∷ rest)
hardware_path-front o name =
    let (middle, p) = joined-front o.sysfs_root b'c' (codes "lass/net") name in
    let (rest, q) = join_path-front (base o.sysfs_root) b'/' b'c' middle (codes "address") in
    (rest, ap (λ path. join_path path (codes "address")) p ∙ q)

apart : (front s t : Bytes) (c d : ℕ) → c ≢ d → front ++ b'/' ∷ c ∷ s ≢ front ++ b'/' ∷ d ∷ t
apart [] s t c d h e = ground arith
apart (a ∷ front) s t c d h e = apart front s t c d h (ground arith)

efivars-IsOther :
    (o : CollectOptions) (name : Bytes)
    → IsOther o (join_path (sys_path o (codes "/firmware/efi/efivars")) name)
efivars-IsOther o name interface e =
    let (x, p) = joined-front o.sysfs_root b'f' (codes "irmware/efi/efivars") name in
    let (y, q) = hardware_path-front o interface in
    apart (base o.sysfs_root) x y b'f' b'c' (omega arith) (sym p ∙ (e ∙ q))

module _ {o : CollectOptions} (fs : Files) (w : Readdressed o fs) where
  abbrev efivars : Bytes
  efivars = sys_path o (codes "/firmware/efi/efivars")

  secure_boot_loop-moved :
      (names : List Bytes)
      → secure_boot_loop (moved fs w) efivars names ≡ secure_boot_loop fs efivars names
  unfolding secure_boot_loop
  secure_boot_loop-moved [] = refl
  secure_boot_loop-moved (name ∷ names) = simp (
    file-moved fs w (join_path efivars name) (efivars-IsOther o name),
    secure_boot_loop-moved names,
  )

  collect_secure_boot-moved : collect_secure_boot (moved fs w) o ≡ collect_secure_boot fs o
  unfolding collect_secure_boot
  collect_secure_boot-moved = simp (moved_rules, secure_boot_loop-moved)

  pub collect_platform-moved : collect_platform (moved fs w) o ≡ collect_platform fs o
  unfolding collect_platform is_other
  collect_platform-moved = simp (moved_rules, collect_secure_boot-moved)
