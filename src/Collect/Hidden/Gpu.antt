-- ===== src/Collect/Hidden/Gpu.antt =====
-- src/gpu.cc on a host on which the hardware addresses are other ones.
use archspec.Base.{
  fun_ext, ap, ◌∙◌, false, ◌≡◌, refl, List, [], ◌∷◌, Bytes, All, true, ◌++◌, codes, Option-cases,
  inl, inr,
}
use archspec.Base.Dict.{Dict}
use archspec.Text.{join_path}
use archspec.Report.Field.{Status, not_found, U64Field, nat_default}
use archspec.Report.Options.{CollectOptions}
use archspec.Host.{Files}
use archspec.Read.{read_u64_field}
use archspec.Collect.Power.{keep_status}
use archspec.Collect.Hidden.{is_other, IsOther, is_other-IsOther}
use archspec.Collect.Hidden.Reads.{Readdressed, moved, moved_rules, u64-moved}
use archspec.Collect.Gpu.{
  Seen, Hwmon, render_loop, render_nodes_by_pci, first_u64_loop, first_u64_file, hwmon_step,
  hwmon_loop, gpu_from_pci, add_card, card_step, card_loop, display_loop, collect_gpu,
}

module _ {o : CollectOptions} (fs : Files) (w : Readdressed o fs) where
  render_loop-moved :
      (root : Bytes) (names : List Bytes) (nodes : Dict Bytes)
      → render_loop (moved fs w) o root names nodes ≡ render_loop fs o root names nodes
  unfolding render_loop
  render_loop-moved root [] nodes = refl
  render_loop-moved root (name ∷ names) nodes = simp (render_loop-moved root names)

  first_u64_loop-moved :
      (paths : List Bytes)
      → All (IsOther o) paths
      → (last : Status) → first_u64_loop (moved fs w) last paths ≡ first_u64_loop fs last paths
  unfolding first_u64_loop
  first_u64_loop-moved [] _ last = refl
  first_u64_loop-moved (path ∷ paths) (h, hs) last =
      let next = λ (value : U64Field) (rest : Status → U64Field).
        elim value.valid as (λ _. U64Field) [
          | true ↦ value
          | false ↦ rest (keep_status last value.status)
        ] in
      ap (λ value. next value (λ status. first_u64_loop (moved fs w) status paths))
        (u64-moved fs w path 1 h)
      ∙ ap (next (read_u64_field fs path)) (fun_ext (first_u64_loop-moved paths hs))

  first_u64_file-moved :
      (root s t : Bytes)
      → is_other s ≡ true
      → is_other t ≡ true
      → first_u64_file (moved fs w) (join_path root s ∷ join_path root t ∷ [])
        ≡ first_u64_file fs (join_path root s ∷ join_path root t ∷ [])
  unfolding first_u64_file
  first_u64_file-moved root s t h g =
      first_u64_loop-moved (join_path root s ∷ join_path root t ∷ [])
        (is_other-IsOther o root s h, (is_other-IsOther o root t g, tt)) not_found

  hwmon_loop-moved :
      (root : Bytes) (names : List Bytes) (v : Hwmon)
      → hwmon_loop (moved fs w) root names v ≡ hwmon_loop fs root names v
  unfolding hwmon_loop hwmon_step is_other
  hwmon_loop-moved root [] v = refl
  hwmon_loop-moved root (name ∷ names) v = simp (moved_rules, hwmon_loop-moved root names)

  gpu_from_pci-moved :
      (address path : Bytes) (nodes : Dict Bytes)
      → gpu_from_pci (moved fs w) address path nodes ≡ gpu_from_pci fs address path nodes
  unfolding gpu_from_pci is_other
  gpu_from_pci-moved address path nodes = simp (moved_rules, first_u64_file-moved, hwmon_loop-moved)

  render_nodes-moved : render_nodes_by_pci (moved fs w) o ≡ render_nodes_by_pci fs o
  unfolding render_nodes_by_pci
  render_nodes-moved = simp (moved_rules, render_loop-moved)

  module _ (nodes : Dict Bytes) where
    add_card-moved :
        (card address : Bytes) (s : Seen)
        → add_card (moved fs w) o nodes card address s ≡ add_card fs o nodes card address s
    unfolding add_card
    add_card-moved card address (entries, seen) = simp gpu_from_pci-moved

    card_step-moved :
        (root card : Bytes) (s : Seen)
        → card_step (moved fs w) o nodes root card s ≡ card_step fs o nodes root card s
    unfolding card_step
    card_step-moved root card s =
        elim (Option-cases (fs.read_symlink (join_path root (card ++ codes "/device")))) [
          | inl e ↦ rw (card_step, e) refl
          | inr (target, e) ↦ rw (card_step, e) (simp add_card-moved)
        ]

    card_loop-moved :
        (root : Bytes) (cards : List Bytes) (s : Seen)
        → card_loop (moved fs w) o nodes root cards s ≡ card_loop fs o nodes root cards s
    unfolding card_loop
    card_loop-moved root [] s = refl
    card_loop-moved root (card ∷ cards) s = simp (card_step-moved, card_loop-moved root cards)

    display_loop-moved :
        (seen addresses : List Bytes)
        → display_loop (moved fs w) o nodes seen addresses ≡ display_loop fs o nodes seen addresses
    unfolding display_loop is_other
    display_loop-moved seen [] = refl
    display_loop-moved seen (address ∷ addresses) =
        simp (moved_rules, gpu_from_pci-moved, display_loop-moved seen addresses)

  pub collect_gpu-moved : collect_gpu (moved fs w) o ≡ collect_gpu fs o
  unfolding collect_gpu
  collect_gpu-moved = simp (moved_rules, render_nodes-moved, card_loop-moved, display_loop-moved)
