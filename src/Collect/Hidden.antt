-- ===== src/Collect/Hidden.antt =====
-- src/internal.hh and src/net.cc: the files that hold the hardware addresses, and those that the other
-- collectors read.
pub mod Reads
pub mod Devices
pub mod Machine
pub mod Gpu
pub mod Platform
pub mod Cpu
use archspec.Base.{
  ◌≡◌, ◌≢◌, refl, ◌∙◌, ap, sym, subst, ℕ, Bool, true, false, not, ◌&&◌, ◌||◌, ◌==◌, leb, List, [],
  ◌∷◌, ◌++◌, append_assoc, Bytes, Option, some, codes, eq_bytes, is_empty, length, Bool-cases, inl,
  inr, arith, if◌then◌else◌,
}
use archspec.Text.{join_path}
use archspec.Report.Options.{CollectOptions}
use archspec.Report.Field.{Default}
use archspec.Host.{Files, Stream}
use archspec.Read.{
  sys_path, read_file, read_first_line, read_string_field, read_string_field_with,
  read_scaled_u64_field, read_u32_field, read_i64_field, read_cpu_list_count_field,
  read_size_bytes_field,
}

-- the file of an interface's hardware address
abbrev pub hardware_path : CollectOptions → Bytes → Bytes
hardware_path o name =
    join_path (join_path (sys_path o (codes "/class/net")) name) (codes "address")

-- No interface's hardware address is in the file.
abbrev pub IsOther : CollectOptions → Bytes → Type 0
IsOther o path = (name : Bytes) → path ≢ hardware_path o name

-- The last three bytes are those of `address`.
ends_alike : Bytes → Bool
ends_alike [] = false
ends_alike (c ∷ s) = eq_bytes (c ∷ s) (codes "ess") || ends_alike s

-- At least three bytes, and other ones at the end.
unfoldable pub is_other : Bytes → Bool
unfolding ends_alike eq_bytes
is_other s = leb 3 (length s) && not (ends_alike s)

ends_alike-append :
    (s : Bytes) (a b c : ℕ) (t : Bytes)
    → ends_alike (s ++ a ∷ b ∷ c ∷ t) ≡ ends_alike (a ∷ b ∷ c ∷ t)
unfolding ends_alike eq_bytes
ends_alike-append [] a b c t = refl
ends_alike-append (d ∷ []) a b c t = ground arith
ends_alike-append (d ∷ e ∷ []) a b c t =
    let deeper = ends_alike-append (e ∷ []) a b c t in ground arith
ends_alike-append (d ∷ e ∷ f ∷ []) a b c t =
    let deeper = ends_alike-append (e ∷ f ∷ []) a b c t in ground arith
ends_alike-append (d ∷ e ∷ f ∷ g ∷ s) a b c t =
    let deeper = ends_alike-append (e ∷ f ∷ g ∷ s) a b c t in ground arith

-- A path that is joined ends in its last part.
join_path-end :
    (root : Bytes) (c : ℕ) (s : Bytes) → (front : Bytes) × (join_path root (c ∷ s) ≡ front ++ c ∷ s)
unfolding join_path
join_path-end root c s = elim (Bool-cases (is_empty root || eq_bytes root (codes "/"))) [
  | inl e ↦ elim (Bool-cases (c == b'/')) [
    | inl q ↦ ([], rw (e, q) (ap (λ d. d ∷ s) (ground arith)))
    | inr q ↦ (b'/' ∷ [], rw (e, q) refl)
  ]
  | inr e ↦ elim (Bool-cases (c == b'/')) [
    | inl q ↦ (root, rw (e, q) refl)
    | inr q ↦ (root ++ b'/' ∷ [], rw (e, q) (sym (append_assoc root (b'/' ∷ []) (c ∷ s))))
  ]
]

ends_alike-join_path : (root s : Bytes) → is_other s ≡ true → ends_alike (join_path root s) ≡ false
unfolding is_other
ends_alike-join_path root [] h = absurd (ground arith)
ends_alike-join_path root (a ∷ []) h = absurd (ground arith)
ends_alike-join_path root (a ∷ b ∷ []) h = absurd (ground arith)
ends_alike-join_path root (a ∷ b ∷ c ∷ t) h =
    let (front, e) = join_path-end root a (b ∷ c ∷ t) in
    let alike = ends_alike-append front a b c t in ap ends_alike e ∙ ground (arith, alike)

ends_alike-hardware_path :
    (o : CollectOptions) (name : Bytes) → ends_alike (hardware_path o name) ≡ true
unfolding ends_alike eq_bytes
ends_alike-hardware_path o name =
    let root = join_path (sys_path o (codes "/class/net")) name in
    let (front, e) = join_path-end root b'a' (codes "ddress") in
    ap ends_alike e ∙ ends_alike-append front b'a' b'd' b'd' (codes "ress")

pub is_other-IsOther :
    (o : CollectOptions) (root s : Bytes) → is_other s ≡ true → IsOther o (join_path root s)
is_other-IsOther o root s h name e =
    ground (arith, ends_alike-join_path root s h, ap ends_alike e, ends_alike-hardware_path o name)
