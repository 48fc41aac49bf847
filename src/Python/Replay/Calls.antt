-- ===== src/Python/Replay/Calls.antt =====
-- src/python/archspec_inspect/_native.cc: references, exceptions and the lock in the calls of the module.
use archspec.Base.{
  ◌≡◌, ◌⊎◌, ◌==◌, length, is_empty, eq_bytes, codes, refl, ◌∙◌, ap, ℕ, zero, suc, Bool, true, false,
  ◌||◌, List, [], ◌∷◌, ◌++◌, Bytes, take, drop, Option, none, some, ◌>>=◌, Bool-cases, Option-cases,
  inl, inr, arith, String,
}
use archspec.Report.Options.{CollectCategory, all_categories, no_categories}
use archspec.Text.{c_str, find}
use archspec.Python.{
  Interpreter, value_error, native_categories, add_category, Event, Traced, succeed, fail, ◌>>◌,
  parse_category_name, comma_loop, set_error,
}
use archspec.Python.Call.{item_loop, named_item, native_parse_categories, assign_root}
use archspec.Python.Replay.{Held, step, replay, raises, sets_error}

unfoldable pub is_none : {A : Type 0} → Option A → Bool
is_none none = true
is_none (some a) = false

-- the lock, and some references
abbrev pub held : ℕ → ℕ → Held
held iterators items = record { iterators = iterators; items = items; lock = true }

-- A call that misuses nothing on its way from one state to another, and that sets an exception where
-- it fails, and only there.
unfoldable pub IsClean : {A : Type 0} → Traced A → Held → Held → Type 0
IsClean t s s' = (replay t.events s ≡ some s') × (raises t.events ≡ is_none t.result)

pub replay-append :
    (es fs : List Event) (s : Held) → replay (es ++ fs) s ≡ (replay es s >>= replay fs)
unfolding replay
replay-append [] fs s = refl
replay-append (e ∷ es) fs s = elim (Option-cases (step e s)) [
  | inl q ↦ rw q refl
  | inr (t, q) ↦ rw q (replay-append es fs t)
]

pub raises-append : (es fs : List Event) → raises (es ++ fs) ≡ raises es || raises fs
unfolding raises
raises-append [] fs = refl
raises-append (e ∷ es) fs = elim (Bool-cases (sets_error e)) [
  | inl q ↦ rw q refl
  | inr q ↦ rw q (raises-append es fs)
]

pub >>-IsClean :
    {A B : Type 0} (t : Traced A) (f : A → Traced B) (s : Held)
    → IsClean t s s
    → ((a : A) → IsClean (f a) s s)
    → IsClean (t >> f) s s
unfolding IsClean is_none
>>-IsClean t f s (r, x) hf = elim (Option-cases t.result) [
  | inl e ↦ rw e (r, x ∙ ap is_none e)
  | inr (a, e) ↦ rw e (
    replay-append t.events (f a).events s ∙ (ap (◌>>= replay (f a).events) r ∙ (hf a).0),
    raises-append t.events (f a).events
        ∙ (ap (◌|| raises (f a).events) (x ∙ ap is_none e) ∙ (hf a).1),
  )
]

parse_category_name-cases :
    (name : Bytes) (flags : CollectCategory)
    → ((message : Bytes) × (parse_category_name name flags
          ≡ fail (set_error value_error message ∷ [])))
      ⊎ ((selected : CollectCategory) × (parse_category_name name flags ≡ succeed selected))
unfolding parse_category_name
parse_category_name-cases name flags = elim (Bool-cases (is_empty name)) [
  | inl e ↦ inl (codes "category names must not be empty", rw e refl)
  | inr e ↦ elim (Bool-cases (eq_bytes name (codes "all"))) [
    | inl a ↦ inr (all_categories, rw (e, a) refl)
    | inr a ↦ elim (Option-cases (add_category name native_categories flags)) [
      | inl u ↦ inl (codes "unknown category '" ++ (c_str name ++ codes "'"), rw (e, a, u) refl)
      | inr (selected, u) ↦ inr (selected, rw (e, a, u) refl)
    ]
  ]
]

parse_category_name-IsClean :
    (name : Bytes) (flags : CollectCategory) (i n : ℕ)
    → IsClean (parse_category_name name flags) (held i n) (held i n)
unfolding IsClean is_none parse_category_name replay raises step
parse_category_name-IsClean name flags i n = ground arith

comma_loop-IsClean :
    (f : ℕ) (names : Bytes) (flags : CollectCategory) (i n : ℕ)
    → IsClean (comma_loop f names flags) (held i n) (held i n)
unfolding comma_loop IsClean is_none replay raises
comma_loop-IsClean zero names flags i n = (refl, refl)
comma_loop-IsClean (suc f) names flags i n = elim (Option-cases (find b',' names)) [
  | inl e ↦ rw (e, comma_loop) (parse_category_name-IsClean names flags i n)
  | inr (comma, e) ↦
      rw (e, comma_loop)
        (>>-IsClean _ _ (held i n) (parse_category_name-IsClean (take comma names) flags i n)
          (λ selected. comma_loop-IsClean f (drop (suc comma) names) selected i n))
]

module _ (py : Interpreter) where
  item_loop-IsClean :
      (items : List py.Object) (failed : Bool) (flags : CollectCategory) (i n : ℕ)
      → IsClean (item_loop py items failed flags) (held (suc i) n) (held i n)
  unfolding item_loop named_item IsClean is_none replay raises step
  item_loop-IsClean [] failed flags i n = elim (Bool-cases failed) [
    | inl e ↦ rw e (refl, refl)
    | inr e ↦ elim (Bool-cases (flags == no_categories)) [
      | inl z ↦ rw (e, z) (refl, refl)
      | inr z ↦ rw (e, z) (refl, refl)
    ]
  ]
  item_loop-IsClean (item ∷ items) failed flags i n = elim (Bool-cases (py.is_unicode item)) [
    | inr u ↦ rw u (refl, refl)
    | inl u ↦ elim (Option-cases (py.as_utf8 item)) [
      | inl t ↦ rw (u, t) (refl, refl)
      | inr (name, t) ↦ elim (parse_category_name-cases (c_str name) flags) [
        | inl (message, p) ↦ rw (u, t, p) (refl, refl)
        | inr (selected, p) ↦ rw (u, t, p) (item_loop-IsClean items failed selected i n)
      ]
    ]
  ]

  pub native_parse_categories-IsClean :
      (value : Option py.Object) (i n : ℕ)
      → IsClean (native_parse_categories py value) (held i n) (held i n)
  unfolding native_parse_categories IsClean is_none replay raises step
  native_parse_categories-IsClean none i n = (refl, refl)
  native_parse_categories-IsClean (some value) i n = elim (Bool-cases (py.is_none value)) [
    | inl e ↦ rw e (refl, refl)
    | inr e ↦ elim (Bool-cases (py.is_unicode value)) [
      | inl u ↦ elim (Option-cases (py.as_utf8 value)) [
        | inl t ↦ rw (e, u, t) (refl, refl)
        | inr (text, t) ↦
            rw (e, u, t)
              (comma_loop-IsClean (suc (length (c_str text))) (c_str text) no_categories i n)
      ]
      | inr u ↦ elim (Option-cases (py.iterate value)) [
        | inl t ↦ rw (e, u, t) (refl, refl)
        | inr ((items, failed), t) ↦ rw (e, u, t) (item_loop-IsClean items failed no_categories i n)
      ]
    ]
  ]

  pub assign_root-IsClean :
      (value : Option py.Object) (argument : String) (destination : Bytes) (i n : ℕ)
      → IsClean (assign_root py value argument destination) (held i n) (held i n)
  unfolding assign_root IsClean is_none replay raises step
  assign_root-IsClean value argument destination i n = ground arith
