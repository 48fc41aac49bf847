-- ===== src/Text/Pieces.antt =====
-- The parts of a text between its commas, which the loops over CPU lists and over category lists take.
use archspec.Base.{
  ◌≡◌, refl, ℕ, suc, List, [], ◌∷◌, Bytes, none, some, if◌then◌else◌, ◌==◌, take, drop, Bool-cases,
  Option-cases, inl, inr, arith,
}
use archspec.Text.{find, extend_line}

-- The parts of a text between its commas, of which there is one more than there are commas.
unfoldable pub pieces : Bytes → List Bytes
unfolding extend_line
pieces [] = [] ∷ []
pieces (c ∷ s) = if c == b',' then [] ∷ pieces s else extend_line c (pieces s)

pub pieces-none : (s : Bytes) → find b',' s ≡ none → pieces s ≡ s ∷ []
unfolding pieces find extend_line
pieces-none [] h = refl
pieces-none (c ∷ s) h = ground (arith, pieces-none s)

pub pieces-some :
    (s : Bytes) (i : ℕ) → find b',' s ≡ some i → pieces s ≡ take i s ∷ pieces (drop (suc i) s)
unfolding pieces find extend_line
pieces-some [] i h = absurd (ground arith)
pieces-some (c ∷ s) i h = elim (Bool-cases (c == b',')) [
  | inl q ↦ ground arith
  | inr q ↦ elim (Option-cases (find b',' s)) [
    | inl e ↦ absurd (ground arith)
    | inr (j, e) ↦ ground (arith, pieces-some s j e)
  ]
]
