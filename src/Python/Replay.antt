-- ===== src/Python/Replay.antt =====
-- src/python/archspec_inspect/_native.cc: what the interpreter allows a call to do.
pub mod Calls
pub mod Json
use archspec.Base.{
  ℕ, zero, suc, Bool, true, false, ◌||◌, List, [], ◌∷◌, Option, none, some, if◌then◌else◌, ◌>>=◌,
}
use archspec.Python.{
  Event, new_iterator, drop_iterator, new_item, drop_item, set_error, raised, release_lock,
  acquire_lock, make_text,
}

-- The references that a call owns, and whether its thread holds the interpreter's lock.
pub record Held : Type 0 where
  pub iterators : ℕ
  pub items : ℕ
  pub lock : Bool

abbrev one_less : ℕ → Option ℕ
one_less zero = none
one_less (suc n) = some n

-- The state behind an event; none where the event is a misuse: a use of the interpreter without its
-- lock, a reference given up that is not owned, or the lock released or taken twice.
unfoldable pub step : Event → Held → Option Held
step new_iterator s = if s.lock then some (record s { iterators = suc s.iterators }) else none
step drop_iterator s =
    if s.lock then (one_less s.iterators >>= λ n. some (record s { iterators = n })) else none
step new_item s = if s.lock then some (record s { items = suc s.items }) else none
step drop_item s =
    if s.lock then (one_less s.items >>= λ n. some (record s { items = n })) else none
step (set_error kind message) s = if s.lock then some s else none
step raised s = if s.lock then some s else none
step make_text s = if s.lock then some s else none
step release_lock s = if s.lock then some (record s { lock = false }) else none
step acquire_lock s = if s.lock then none else some (record s { lock = true })

unfoldable pub replay : List Event → Held → Option Held
unfolding step
replay [] s = some s
replay (event ∷ events) s = step event s >>= replay events

-- an exception is set, by the program or by the interpreter
abbrev pub sets_error : Event → Bool
sets_error (set_error kind message) = true
sets_error raised = true
sets_error _ = false

unfoldable pub raises : List Event → Bool
raises [] = false
raises (event ∷ events) = sets_error event || raises events
