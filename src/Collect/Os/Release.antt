-- ===== src/Collect/Os/Release.antt =====
-- src/os.cc: what `parse_os_release` makes of a file.
use archspec.Base.{
  ◌≡◌, ◌≢◌, refl, ap, ◌∙◌, subst, ℕ, false, List, [], ◌∷◌, ◌++◌, append_assoc, Bytes, All, Lacks,
  All-append, Option, none, take_prefix, drop_prefix, arith, ◌==◌,
}
use archspec.Base.Dict.{insert, view, update, view-insert, view_empty}
use archspec.Text.{lines, trim, trim_start, unquote_value, trim_end}
use archspec.Text.Trim.{IsInk, trim_ink, trim-ink}
use archspec.Text.Find.{find-append}
use archspec.Text.Lines.{lines-append}
use archspec.Text.Unquote.{
  escaped, trim_end-last, unquote_value-escaped, unquote_value-single, unquote_value-plain,
}
use archspec.KeyValue.{KeyValueMap}
use archspec.Collect.Os.{os_release_step, os_release_loop, parse_os_release}

-- How a value is written.
pub data Quotes : Type 0 where
  plain single double : Quotes

-- A line of the file: an assignment of a value to a name, which is given by its first byte and the
-- others; a comment; or nothing.
pub data ReleaseLine : Type 0 where
  assign : ℕ → Bytes → Quotes → Bytes → ReleaseLine
  remark : Bytes → ReleaseLine
  blank : ReleaseLine

abbrev pub written : Quotes → Bytes → Bytes
written plain value = value
written single value = b'\'' ∷ (value ++ b'\'' ∷ [])
written double value = b'"' ∷ (escaped value ++ b'"' ∷ [])

abbrev pub print_line : ReleaseLine → Bytes
print_line (assign c name quotes value) = (c ∷ name) ++ b'=' ∷ written quotes value
print_line (remark text) = b'#' ∷ text
print_line blank = []

abbrev pub print_release : List ReleaseLine → Bytes
print_release [] = []
print_release (line ∷ rest) = print_line line ++ b'\n' ∷ print_release rest

-- A value that is written without quotes has no space and no quote.
abbrev pub IsWritten : Quotes → Bytes → Type 0
IsWritten plain value = All IsInk value × Lacks b'"' value × Lacks b'\'' value
IsWritten _ value = Unit

-- A name has no space and no `=`, and does not begin with `#`; no text has a line break.
abbrev pub IsLine : ReleaseLine → Type 0
IsLine (assign c name quotes value) =
    (c ≢ b'#')
    × All IsInk (c ∷ name)
    × Lacks b'=' (c ∷ name)
    × Lacks b'\n' value
    × IsWritten quotes value
IsLine (remark text) = Lacks b'\n' text
IsLine blank = Unit

-- What the lines say, on a function from names to values.
abbrev pub meaning : List ReleaseLine → (Bytes → Option Bytes) → Bytes → Option Bytes
meaning [] f = f
meaning (assign c name quotes value ∷ rest) f = meaning rest (update (c ∷ name) value f)
meaning (remark text ∷ rest) f = meaning rest f
meaning (blank ∷ rest) f = meaning rest f

ink-Lacks : (s : Bytes) → All IsInk s → Lacks b'\n' s
ink-Lacks [] _ = tt
ink-Lacks (c ∷ s) (h, hs) = (λ e. ground arith, ink-Lacks s hs)

escaped-Lacks : (s : Bytes) → Lacks b'\n' s → Lacks b'\n' (escaped s)
escaped-Lacks [] _ = tt
escaped-Lacks (c ∷ s) (h, hs) = ground (arith, escaped-Lacks s hs)

written-Lacks : (q : Quotes) (value : Bytes) → Lacks b'\n' value → Lacks b'\n' (written q value)
written-Lacks plain value v = v
written-Lacks single value v =
    (ground arith, All-append (λ d. d ≢ b'\n') value _ v (ground arith, tt))
written-Lacks double value v = (
  ground arith,
  All-append (λ d. d ≢ b'\n') (escaped value) _ (escaped-Lacks value v) (ground arith, tt),
)

print_line-Lacks : (line : ReleaseLine) → IsLine line → Lacks b'\n' (print_line line)
print_line-Lacks (assign c name q value) (_, ink, _, v, _) =
    All-append (λ d. d ≢ b'\n') (c ∷ name) _ (ink-Lacks (c ∷ name) ink)
      (ground arith, written-Lacks q value v)
print_line-Lacks (remark text) h = (ground arith, h)
print_line-Lacks blank h = tt

-- A line that begins with a byte that is no space and ends in such a byte stays.
trim-ends :
    (c : ℕ) (body : Bytes) (d : ℕ)
    → IsInk c
    → IsInk d
    → trim (c ∷ (body ++ d ∷ [])) ≡ c ∷ (body ++ d ∷ [])
trim-ends c body d first last =
    trim_ink [] c (body ++ d ∷ []) tt first ∙ ap (◌∷◌ c) (trim_end-last body d [] last tt)

trim-assign :
    (c : ℕ) (name : Bytes) (q : Quotes) (value : Bytes)
    → All IsInk (c ∷ name)
    → IsWritten q value
    → trim ((c ∷ name) ++ b'=' ∷ written q value) ≡ (c ∷ name) ++ b'=' ∷ written q value
trim-assign c name plain value ink (v, _, _) =
    trim-ink _ (All-append IsInk (c ∷ name) (b'=' ∷ value) ink (refl, v))
trim-assign c name single value ink _ =
    subst (λ s. trim (c ∷ s) ≡ c ∷ s) (append_assoc name (b'=' ∷ b'\'' ∷ value) (b'\'' ∷ []))
      (trim-ends c (name ++ b'=' ∷ b'\'' ∷ value) b'\'' ink.0 refl)
trim-assign c name double value ink _ =
    subst (λ s. trim (c ∷ s) ≡ c ∷ s) (append_assoc name (b'=' ∷ b'"' ∷ escaped value) (b'"' ∷ []))
      (trim-ends c (name ++ b'=' ∷ b'"' ∷ escaped value) b'"' ink.0 refl)

unquote_value-written :
    (q : Quotes) (value : Bytes) → IsWritten q value → unquote_value (written q value) ≡ value
unquote_value-written plain value (ink, d, s) = unquote_value-plain value ink d s
unquote_value-written single value _ = unquote_value-single value
unquote_value-written double value _ = unquote_value-escaped [] value [] tt tt

os_release_step-assign :
    (c : ℕ) (name : Bytes) (q : Quotes) (value : Bytes) (m : KeyValueMap)
    → IsLine (assign c name q value)
    → os_release_step (print_line (assign c name q value)) m ≡ insert (c ∷ name) value m
unfolding os_release_step
os_release_step-assign c name q value m (hash, ink, equals, _, ok) =
    let ordinary : (c == b'#') ≡ false = ground arith in
    rw
      (
        trim-assign c name q value ink ok,
        ordinary,
        find-append b'=' (c ∷ name) (written q value) equals,
        trim-assign c name q value ink ok,
        take_prefix (c ∷ name) (b'=' ∷ written q value),
        drop_prefix (c ∷ name) b'=' (written q value),
        trim-ink (c ∷ name) ink,
        unquote_value-written q value ok,
      )
      refl

os_release_step-other :
    (m : KeyValueMap) (text : Bytes)
    → (os_release_step (print_line (remark text)) m ≡ m)
      × (os_release_step (print_line blank) m ≡ m)
unfolding os_release_step trim trim_start trim_end
os_release_step-other m text = (rw (trim_ink [] b'#' text tt refl) refl, refl)

os_release_loop-meaning :
    (ls : List ReleaseLine) (m : KeyValueMap)
    → All IsLine ls
    → view (os_release_loop (lines b'\n' (print_release ls)) m) ≡ meaning ls (view m)
unfolding os_release_loop lines
os_release_loop-meaning [] m _ = refl
os_release_loop-meaning (assign c name q value ∷ ls) m (h, hs) =
    rw
      (
        lines-append b'\n' (print_line (assign c name q value)) (print_release ls)
            (print_line-Lacks (assign c name q value) h),
        os_release_loop,
        os_release_step-assign c name q value m h,
      )
      (os_release_loop-meaning ls (insert (c ∷ name) value m) hs
        ∙ ap (meaning ls) (view-insert (c ∷ name) value m))
os_release_loop-meaning (remark text ∷ ls) m (h, hs) =
    rw
      (
        lines-append b'\n' (print_line (remark text)) (print_release ls)
            (print_line-Lacks (remark text) h),
        os_release_loop,
        (os_release_step-other m text).0,
      )
      (os_release_loop-meaning ls m hs)
os_release_loop-meaning (blank ∷ ls) m (h, hs) =
    rw (os_release_step-other m []).1 (os_release_loop-meaning ls m hs)

-- A file of assignments, comments and empty lines is parsed into a map that gives every name the
-- value of the last of its assignments, written between double quotes and escaped, between single
-- quotes, or plainly without spaces and quotes. No name is empty, has a space or a `=` or begins with
-- `#`, and no text has a line break.
pub parse_os_release-refines :
    (ls : List ReleaseLine)
    → All IsLine ls
    → view (parse_os_release (print_release ls)) ≡ meaning ls (λ _. none)
unfolding parse_os_release
parse_os_release-refines ls h = os_release_loop-meaning ls [] h ∙ ap (meaning ls) view_empty
