-- ===== src/Python/Trace.antt =====
-- src/python/archspec_inspect/_native.cc: one call after another.
use archspec.Base.{◌≡◌, refl, append-nil, some, Option-cases, inl, inr, arith}
use archspec.Python.{Traced, succeed, ◌>>◌}

pub >>-succeed : {A : Type 0} (t : Traced A) → (t >> succeed) ≡ t
>>-succeed t = elim (Option-cases t.result) [
  | inl e ↦ ground (arith, append-nil t.events)
  | inr (a, e) ↦ ground (arith, append-nil t.events)
]

pub >>-result :
    {A B : Type 0} (t : Traced A) (f : A → Traced B) {b : B}
    → (t >> f).result ≡ some b
    → (a : A) × (t.result ≡ some a) × ((f a).result ≡ some b)
>>-result t f h = elim (Option-cases t.result) [
  | inl e ↦ absurd (ground arith)
  | inr (a, e) ↦ (a, e, ground arith)
]

pub >>-some :
    {A B : Type 0} (t : Traced A) (f : A → Traced B) (a : A)
    → t.result ≡ some a
    → (t >> f).result ≡ (f a).result
>>-some t f a e = rw e refl
