-- ===== src/CpuList/Fuel.antt =====
-- src/internal.hh: the rounds of the loop of `cpu_list_count`, and the range of its result.
use archspec.Base.{
  refl, sym, ap, fun_ext, List, [], ◌∷◌, Option, none, ◌>>=◌, ℕ, zero, suc, ◌<◌, ◌≡◌, some, arith,
  Bytes, length, length-drop_lt, drop, take, Option-cases, inl, inr, >>=-eq-some, is_empty,
  Bool-cases,
}
use archspec.Text.{find, trim}
use archspec.Text.Find.{find-lt}
use archspec.Text.Pieces.{pieces, pieces-none, pieces-some}
use archspec.Number.{u64_mod}
use archspec.CpuList.{add_token, cpu_list_loop, cpu_list_count}

-- One part of the text after the other, without fuel.
abbrev pub add_tokens : List Bytes → ℕ → Option ℕ
add_tokens [] count = some count
add_tokens (part ∷ parts) count = add_token (trim part) count >>= add_tokens parts

>>=-some : (o : Option ℕ) → (o >>= (λ n. some n)) ≡ o
>>=-some none = refl
>>=-some (some n) = refl

-- With more rounds than the text has bytes, the loop ends behind the last part between the commas:
-- it adds each of the parts in turn, up to the first that is refused.
pub cpu_list_loop-pieces :
    (f : ℕ) (rest : Bytes) (count : ℕ)
    → length rest < f
    → cpu_list_loop f rest count ≡ add_tokens (pieces rest) count
unfolding cpu_list_loop
cpu_list_loop-pieces zero rest count p = absurd (omega arith)
cpu_list_loop-pieces (suc f) rest count p = elim (Option-cases (find b',' rest)) [
  | inl e ↦ rw (e, cpu_list_loop, pieces-none rest e) (sym (>>=-some (add_token (trim rest) count)))
  | inr (comma, e) ↦
      rw (e, cpu_list_loop, pieces-some rest comma e)
        (ap (add_token (trim (take comma rest)) count >>=◌) (
          fun_ext λ counted.
            cpu_list_loop-pieces f (drop (suc comma) rest) counted
              (omega (arith, length-drop_lt comma rest (find-lt b',' rest e)))))
]

pub add_token_bound :
    (token : Bytes) (count : ℕ) {n : ℕ}
    → count < u64_mod
    → add_token token count ≡ some n
    → n < u64_mod
unfolding add_token
add_token_bound token count h e = ground arith

pub cpu_list_loop_bound :
    (f : ℕ) (rest : Bytes) (count : ℕ) {n : ℕ}
    → count < u64_mod
    → cpu_list_loop f rest count ≡ some n
    → n < u64_mod
unfolding cpu_list_loop
cpu_list_loop_bound zero rest count h e = ground arith
cpu_list_loop_bound (suc f) rest count h e = elim (Option-cases (find b',' rest)) [
  | inl e₁ ↦ add_token_bound (trim rest) count h (rw (e₁, cpu_list_loop) at e)
  | inr (comma, e₁) ↦
      let (counted, e₂, e₃) =
        >>=-eq-some (add_token (trim (take comma rest)) count)
          (λ (counted : ℕ). cpu_list_loop f (drop (suc comma) rest) counted)
          (rw (e₁, cpu_list_loop) at e) in
      cpu_list_loop_bound f (drop (suc comma) rest) counted
        (add_token_bound (trim (take comma rest)) count h e₂) e₃
]

-- A count that is returned fits 64 bits.
cpu_list_count_bound : (text : Bytes) {n : ℕ} → cpu_list_count text ≡ some n → n < u64_mod
unfolding cpu_list_count
cpu_list_count_bound text e = elim (Bool-cases (is_empty (trim text))) [
  | inl nothing ↦ let zero_count = rw nothing at e in ground arith
  | inr more ↦ cpu_list_loop_bound _ (trim text) 0 (omega arith) (rw more at e)
]
