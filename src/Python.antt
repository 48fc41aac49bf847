-- ===== src/Python.antt =====
-- src/python/archspec_inspect/_native.cc: the Python binding.
pub mod Call
pub mod Trace
pub mod Pieces
pub mod Names
pub mod Replay
pub mod Privacy
pub mod Agreement
use archspec.Base.{
  ℕ, zero, suc, Bool, true, false, not, List, [], ◌∷◌, ◌++◌, Bytes, Option, none, some, String,
  codes, if◌then◌else◌, ◌==◌, eq_bytes, is_empty, take, drop, length,
}
use archspec.Text.{find, c_str}
use archspec.Report.Options.{
  CollectCategory, Category, os, cpu, isa, cache, memory, pci, gpu, perf, block, net, thermal,
  power, virtualization, platform, flag, union, no_categories, all_categories, CollectOptions,
  default_options,
}
use archspec.Host.{Host}
use archspec.Collect.Collector.{collect_report}
use archspec.Json.Report.{report_to_json}

-- What the Python interpreter answers. It is not the program's code.
pub record Interpreter : Type 1 where
  pub Object : Type 0
  -- `value == Py_None`
  pub is_none : Object → Bool
  -- `PyUnicode_Check`
  pub is_unicode : Object → Bool
  -- `PyUnicode_AsUTF8`: the bytes, or `nullptr` with an exception
  pub as_utf8 : Object → Option Bytes
  -- `PyObject_GetIter`: what `PyIter_Next` gives, and whether it ends with an exception
  pub iterate : Object → Option (List Object × Bool)
  -- `PyUnicode_FromStringAndSize`: `nullptr` comes with an exception
  pub new_text : Bytes → Option Object

pub data ExceptionType : Type 0 where
  value_error type_error runtime_error : ExceptionType

-- What a call does to the interpreter: the references it owns, the exception, the global lock.
pub data Event : Type 0 where
  new_iterator drop_iterator new_item drop_item : Event
  -- `PyErr_SetString` and `PyErr_Format`
  set_error : ExceptionType → Bytes → Event
  -- a call of the interpreter that sets an exception itself
  raised : Event
  -- `Py_BEGIN_ALLOW_THREADS` and `Py_END_ALLOW_THREADS`
  release_lock acquire_lock : Event
  make_text : Event

-- A call that returns, or fails with `false` or `nullptr`, and what it did to the interpreter.
pub record Traced (A : Type 0) : Type 0 where
  pub result : Option A
  pub events : List Event

module _ {A : Type 0} where
  abbrev pub succeed : A → Traced A
  succeed a = record { result = some a; events = [] }

  abbrev pub fail : List Event → Traced A
  fail es = record { result = none; events = es }

  -- the same, behind some events
  abbrev pub after : List Event → Traced A → Traced A
  after es t = record { result = t.result; events = es ++ t.events }

-- The next call, where this one has returned.
infixl 5 ◌>>◌
abbrev pub ◌>>◌ : {A B : Type 0} → Traced A → (A → Traced B) → Traced B
t >> f = elim t.result [ none ↦ fail t.events | some a ↦ after t.events (f a) ]

-- `kCategories`
abbrev pub native_categories : List (Category × String)
native_categories =
    (os, "os")
    ∷ (cpu, "cpu")
    ∷ (isa, "isa")
    ∷ (cache, "cache")
    ∷ (memory, "memory")
    ∷ (pci, "pci")
    ∷ (gpu, "gpu")
    ∷ (perf, "perf")
    ∷ (block, "block")
    ∷ (net, "net")
    ∷ (thermal, "thermal")
    ∷ (power, "power")
    ∷ (virtualization, "virtualization")
    ∷ (platform, "platform")
    ∷ []

-- the loop of `add_category`
unfoldable pub add_category :
    Bytes → List (Category × String) → CollectCategory → Option CollectCategory
add_category name [] flags = none
add_category name ((category, entry) ∷ entries) flags =
    if eq_bytes name (codes entry)
    then some (union flags (flag category))
    else add_category name entries flags

unfoldable pub parse_category_name : Bytes → CollectCategory → Traced CollectCategory
parse_category_name name flags =
    if is_empty name
    then fail (set_error value_error (codes "category names must not be empty") ∷ [])
    else if eq_bytes name (codes "all")
    then succeed all_categories
    else elim (add_category name native_categories flags) [
      | none ↦
          fail
            (set_error value_error (codes "unknown category '" ++ (c_str name ++ codes "'")) ∷ [])
      | some selected ↦ succeed selected
    ]

-- the loop over a comma-separated text, from `start` on; the number bounds its rounds
unfoldable pub comma_loop : ℕ → Bytes → CollectCategory → Traced CollectCategory
comma_loop zero names flags = succeed flags
comma_loop (suc fuel) names flags = elim (find b',' names) [
  | none ↦ parse_category_name names flags
  | some comma ↦ parse_category_name (take comma names) flags >> λ selected.
      comma_loop fuel (drop (suc comma) names) selected
]
