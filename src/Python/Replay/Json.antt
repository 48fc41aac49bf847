-- ===== src/Python/Replay/Json.antt =====
-- src/python/archspec_inspect/_native.cc: references, exceptions and the lock in `collect_json`.
use archspec.Base.{
  ◌≡◌, ◌≢◌, ◌⊎◌, sym, false, List, [], ◌∷◌, ◌++◌, append_assoc, codes, refl, ◌∙◌, ℕ, Bytes, Option,
  none, some, Option-cases, inl, inr,
}
use archspec.Host.{Host}
use archspec.Report.Options.{CollectOptions}
use archspec.Collect.Collector.{collect_report}
use archspec.Json.Report.{report_to_json}
use archspec.Python.{Interpreter, Event, succeed, fail, set_error, release_lock, runtime_error}
use archspec.Python.Call.{
  Arguments, options_of, text_object, report_text, Thrown, nothing, exception, something_else,
  collect_json,
}
use archspec.Python.Replay.{step, replay, raises}
use archspec.Python.Replay.Calls.{
  IsClean, is_none, held, >>-IsClean, replay-append, native_parse_categories-IsClean,
  assign_root-IsClean,
}

module _ (py : Interpreter) where
  succeed-IsClean : {A : Type 0} (a : A) (i n : ℕ) → IsClean (succeed a) (held i n) (held i n)
  unfolding IsClean is_none replay raises
  succeed-IsClean a i n = (refl, refl)

  options_of-IsClean :
      (a : Arguments py) (i n : ℕ) → IsClean (options_of py a) (held i n) (held i n)
  unfolding options_of
  options_of-IsClean a i n =
      search (>>-IsClean, native_parse_categories-IsClean, assign_root-IsClean, succeed-IsClean)
        depth 12

  text_object-IsClean :
      (text : Bytes) (i n : ℕ) → IsClean (text_object py text) (held i n) (held i n)
  unfolding text_object IsClean is_none replay raises step
  text_object-IsClean text i n = elim (Option-cases (py.new_text text)) [
    | inl e ↦ rw (e, text_object) (refl, refl)
    | inr (object, e) ↦ rw (e, text_object) (refl, refl)
  ]

  report_text-IsClean :
      (h : Host) (o : CollectOptions) (i n : ℕ)
      → IsClean (report_text py h nothing o) (held i n) (held i n)
  unfolding report_text IsClean is_none replay raises step
  report_text-IsClean h o i n = text_object-IsClean (report_to_json (collect_report h o)) i n

  -- Where the collection throws nothing, a call of `collect_json` gives up every reference that it
  -- takes and no other, uses the interpreter with its lock held alone, and holds the lock at its end;
  -- and it sets an exception where it returns `nullptr`, and only there.
  pub replay-collect_json :
      (h : Host) (arguments : Option (Arguments py)) (i n : ℕ)
      → (replay (collect_json py h nothing arguments).events (held i n) ≡ some (held i n))
        × (raises (collect_json py h nothing arguments).events
            ≡ is_none (collect_json py h nothing arguments).result)
  unfolding collect_json IsClean is_none replay raises step
  replay-collect_json h none i n = (refl, refl)
  replay-collect_json h (some a) i n =
      >>-IsClean (options_of py a) (report_text py h nothing) (held i n) (options_of-IsClean a i n)
        (λ o. report_text-IsClean h o i n)

  -- the text that a handler sets
  abbrev pub error_text : Thrown → Bytes
  error_text (exception what) = what
  error_text _ = codes "archspec collection failed"

  report_text-thrown :
      (h : Host) (thrown : Thrown) (o : CollectOptions)
      → thrown ≢ nothing
      → report_text py h thrown o
        ≡ fail (release_lock ∷ set_error runtime_error (error_text thrown) ∷ [])
  unfolding report_text
  report_text-thrown h nothing o some_throw = absurd (some_throw refl)
  report_text-thrown h (exception what) o some_throw = refl
  report_text-thrown h something_else o some_throw = refl

  options_clean :
      (a : Arguments py) (i n : ℕ) → replay (options_of py a).events (held i n) ≡ some (held i n)
  unfolding IsClean
  options_clean a i n = (options_of-IsClean a i n).0

  -- the options that a call's arguments give, where they are accepted
  abbrev pub accepted : Option (Arguments py) → Option CollectOptions
  accepted none = none
  accepted (some a) = (options_of py a).result

  -- Where the collection throws, a call returns `nullptr`. If its arguments are refused, it leaves
  -- the references and the lock as they were. If they are accepted, it does nothing amiss up to the
  -- point where it sets a RuntimeError, with the text of the exception or one of its own, and at this
  -- point, which is its last, it does not hold the lock.
  pub collect_json_misuse :
      (h : Host) (arguments : Option (Arguments py)) (thrown : Thrown) (i n : ℕ)
      → thrown ≢ nothing
      → let call = collect_json py h thrown arguments in
        (call.result ≡ none)
        × (((accepted arguments ≡ none) × (replay call.events (held i n) ≡ some (held i n)))
            ⊎ ((o : CollectOptions) × (accepted arguments ≡ some o)
                × (before : List Event) × (call.events
                    ≡ before ++ set_error runtime_error (error_text thrown) ∷ [])
                × (replay before (held i n) ≡ some (record (held i n) { lock = false }))))
  unfolding collect_json replay step
  collect_json_misuse h none thrown i n some_throw = (refl, inl (refl, refl))
  collect_json_misuse h (some a) thrown i n some_throw =
      elim (Option-cases (options_of py a).result) [
        | inl e ↦ rw e (refl, inl (refl, (options_clean a i n)))
        | inr (o, e) ↦
            rw (e, report_text-thrown h thrown o some_throw)
              (
                refl,
                inr (
                  o,
                  refl,
                  (options_of py a).events ++ release_lock ∷ [],
                  sym (append_assoc (options_of py a).events (release_lock ∷ []) _),
                  replay-append (options_of py a).events (release_lock ∷ []) (held i n)
                      ∙ rw (options_clean a i n) refl,
                ),
              )
      ]
