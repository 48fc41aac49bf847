-- ===== src/Python/Pieces.antt =====
-- src/python/archspec_inspect/_native.cc: the loop over the parts of a text between its commas.
use archspec.Base.{
  ◌≡◌, ℕ, zero, suc, ◌<◌, List, [], ◌∷◌, Bytes, take, drop, length, length-drop_lt, fun_ext,
  Option-cases, inl, inr, arith, ap, sym,
}
use archspec.Text.{find}
use archspec.Text.Find.{find-lt}
use archspec.Text.Pieces.{pieces, pieces-none, pieces-some}
use archspec.Report.Options.{CollectCategory}
use archspec.Python.Trace.{>>-succeed}
use archspec.Python.{Traced, succeed, ◌>>◌, parse_category_name, comma_loop}

-- one name after the other
unfoldable pub name_loop : List Bytes → CollectCategory → Traced CollectCategory
name_loop [] flags = succeed flags
name_loop (name ∷ names) flags =
    parse_category_name name flags >> λ selected. name_loop names selected

-- enough rounds
pub comma_loop-pieces :
    (f : ℕ) (s : Bytes) (flags : CollectCategory)
    → length s < f
    → comma_loop f s flags ≡ name_loop (pieces s) flags
unfolding comma_loop name_loop
comma_loop-pieces zero s flags h = absurd (omega arith)
comma_loop-pieces (suc f) s flags h = elim (Option-cases (find b',' s)) [
  | inl e ↦ rw (e, comma_loop, pieces-none s e, name_loop) (sym (>>-succeed _))
  | inr (i, e) ↦
      rw (e, comma_loop, pieces-some s i e, name_loop)
        (ap (parse_category_name (take i s) flags >>◌) (
          fun_ext λ selected.
            comma_loop-pieces f (drop (suc i) s) selected
              (omega (arith, length-drop_lt i s (find-lt b',' s e)))))
]
