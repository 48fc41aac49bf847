-- ===== src/Collect/Gpu/Unique.antt =====
-- src/gpu.cc: the PCI addresses of the entries, and the set `seen`.
use archspec.Base.{
  ◌≡◌, refl, ap, Bool, true, false, List, [], ◌∷◌, ◌++◌, Bytes, Option, none, some, map, contains,
  eq_bytes, eq_bytes_iff, Bool-cases, inl, inr, arith, if◌then◌else◌, codes,
}
use archspec.Base.Dict.{Dict}
use archspec.Base.Distinct.{Distinct, Distinct-append, Distinct-concat, contains-append}
use archspec.Text.{join_path, basename}
use archspec.Report.Options.{CollectOptions}
use archspec.Report.Field.{of_value}
use archspec.Report.Gpu.{GpuInfo}
use archspec.Host.{Files}
use archspec.Read.{list_dir, sys_path}
use archspec.Read.Laws.{list_dir-Distinct}
use archspec.Collect.Gpu.{
  Seen, gpu_from_pci, add_card, card_step, card_loop, display_loop, collect_gpu,
  render_nodes_by_pci,
}

-- the PCI addresses of the entries
abbrev pub addresses_of : List GpuInfo → List Bytes
addresses_of entries = map (λ (gpu : GpuInfo). gpu.pci_address.value) entries

-- The set holds the addresses of the entries, and these are distinct.
abbrev IsExact : Seen → Type 0
IsExact (entries, seen) =
    ((a : Bytes) → contains seen a ≡ contains (addresses_of entries) a)
    × Distinct (addresses_of entries)

addresses_of-append :
    (xs ys : List GpuInfo) → addresses_of (xs ++ ys) ≡ addresses_of xs ++ addresses_of ys
addresses_of-append [] ys = refl
addresses_of-append (x ∷ xs) ys = rw (addresses_of-append xs ys)

module _ (h : Files) (o : CollectOptions) (render_nodes : Dict Bytes) where
  add_card-IsExact :
      (card address : Bytes) (s : Seen)
      → IsExact s
      → IsExact (add_card h o render_nodes card address s)
  unfolding add_card contains gpu_from_pci of_value
  add_card-IsExact card address (entries, seen) (same, distinct) =
      elim (Bool-cases (contains seen address)) [
        | inl e ↦ rw e (same, distinct)
        | inr e ↦
            rw (e, addresses_of-append)
              (
                (λ a. rw contains-append (ground (arith, same a))),
                Distinct-append (addresses_of entries) address distinct
                    (ground (arith, same address)),
              )
      ]

  choose-IsExact : (b : Bool) (s t : Seen) → IsExact s → IsExact t → IsExact (if b then s else t)
  choose-IsExact true s t hs ht = hs
  choose-IsExact false s t hs ht = ht

  card_step-IsExact :
      (root card : Bytes) (s : Seen) → IsExact s → IsExact (card_step h o render_nodes root card s)
  unfolding card_step
  card_step-IsExact root card s ok =
      choose-IsExact _ s _ ok (target (h.read_symlink (join_path root (card ++ codes "/device"))))
    where
      target :
          (t : Option Bytes)
          → IsExact (elim t as (λ _. Seen) [
            | none ↦ s
            | some address ↦ add_card h o render_nodes card (basename address) s
          ])
      target none = ok
      target (some address) = add_card-IsExact card (basename address) s ok

  card_loop-IsExact :
      (root : Bytes) (cards : List Bytes) (s : Seen)
      → IsExact s
      → IsExact (card_loop h o render_nodes root cards s)
  unfolding card_loop
  card_loop-IsExact root [] s ok = ok
  card_loop-IsExact root (card ∷ cards) s ok =
      card_loop-IsExact root cards _ (card_step-IsExact root card s ok)

  -- The devices of the second loop are among the listed ones, and not among those seen.
  display_loop-new :
      (seen names : List Bytes) (a : Bytes)
      → contains (addresses_of (display_loop h o render_nodes seen names)) a ≡ true
      → (contains names a ≡ true) × (contains seen a ≡ false)
  unfolding display_loop contains gpu_from_pci of_value
  display_loop-new seen [] a e = absurd (ground arith)
  display_loop-new seen (name ∷ names) a e =
      ground (arith, display_loop-new seen names a, same_seen)
    where
      same_seen : eq_bytes name a ≡ true → contains seen name ≡ contains seen a
      same_seen p = ap (contains seen) ((eq_bytes_iff name a).0 p)

  display_loop-Distinct :
      (seen names : List Bytes)
      → Distinct names
      → Distinct (addresses_of (display_loop h o render_nodes seen names))
  unfolding display_loop gpu_from_pci of_value
  display_loop-Distinct seen [] d = tt
  display_loop-Distinct seen (name ∷ names) (new, d) =
      ground (arith, display_loop-Distinct seen names d, display_loop-new seen names name)

-- Where the listing of the PCI devices repeats no name, no two graphics cards of a report have one
-- PCI address.
pub collect_gpu-Distinct :
    (h : Files) (o : CollectOptions)
    → ((names : List Bytes)
        → h.directory (sys_path o (codes "/bus/pci/devices")) ≡ some names
        → Distinct names)
    → Distinct (map (λ (gpu : GpuInfo). gpu.pci_address.value) (collect_gpu h o).entries)
unfolding collect_gpu
collect_gpu-Distinct h o distinct =
    let nodes = render_nodes_by_pci h o in
    let root = sys_path o (codes "/class/drm") in
    let cards = card_loop-IsExact h o nodes root (list_dir h root) ([], []) ((λ a. refl), tt) in
    let devices = list_dir-Distinct h (sys_path o (codes "/bus/pci/devices")) distinct in
    rw addresses_of-append (
      Distinct-concat _ _ cards.1 (display_loop-Distinct h o nodes _ _ devices)
        (λ a e. ground (arith, cards.0 a, display_loop-new h o nodes _ _ a e)))
