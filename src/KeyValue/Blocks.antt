-- ===== src/KeyValue/Blocks.antt =====
-- src/internal.hh: what `parse_colon_blocks` makes of a text of blocks.
use archspec.Base.{
  ◌≡◌, refl, ◌∙◌, false, List, [], ◌∷◌, ◌++◌, append_assoc, append-nil, map, Bytes, All, Lacks,
  take_prefix, drop_prefix, is_empty, arith,
}
use archspec.Base.Dict.{insert}
use archspec.Text.{lines, trim, trim_start, trim_end}
use archspec.Text.Lines.{lines-append}
use archspec.Text.Find.{find-append}
use archspec.KeyValue.{KeyValueMap, block_step, block_loop, close_block, parse_colon_blocks}

-- what stands before and behind the colon of a line
abbrev pub RawEntry : Type 0
RawEntry = Bytes × Bytes

abbrev pub IsEntry : RawEntry → Type 0
IsEntry (key, value) = Lacks b':' key × (Lacks b'\n' key × Lacks b'\n' value)

abbrev pub print_entry : RawEntry → Bytes
print_entry (key, value) = key ++ b':' ∷ value

-- a block's lines and the blank line behind them
abbrev pub print_block : List RawEntry → Bytes
print_block [] = b'\n' ∷ []
print_block (entry ∷ entries) = print_entry entry ++ b'\n' ∷ print_block entries

abbrev pub print_blocks : List (List RawEntry) → Bytes
print_blocks [] = []
print_blocks (block ∷ blocks) = print_block block ++ print_blocks blocks

-- The map of a block: the trimmed values under the trimmed keys, of which a later one wins.
abbrev pub enter : List RawEntry → KeyValueMap → KeyValueMap
enter [] values = values
enter ((key, value) ∷ entries) values = enter entries (insert (trim key) (trim value) values)

-- A block is not empty, and its lines are entries.
abbrev pub IsBlock : List RawEntry → Type 0
IsBlock entries = (is_empty entries ≡ false) × All IsEntry entries

trim_end-colon : (s rest : Bytes) → is_empty (trim_end (s ++ b':' ∷ rest)) ≡ false
unfolding trim_end
trim_end-colon [] rest = ground arith
trim_end-colon (c ∷ s) rest = ground (arith, trim_end-colon s rest)

trim-colon : (s rest : Bytes) → is_empty (trim (s ++ b':' ∷ rest)) ≡ false
unfolding trim trim_start
trim-colon [] rest = trim_end-colon [] rest
trim-colon (c ∷ s) rest = ground (arith, trim-colon s rest, trim_end-colon (c ∷ s) rest)

print_entry-Lacks :
    (key value : Bytes)
    → Lacks b'\n' key
    → Lacks b'\n' value
    → Lacks b'\n' (print_entry (key, value))
print_entry-Lacks [] value hk hv = ((λ e. absurd (omega arith)), hv)
print_entry-Lacks (c ∷ key) value (h, hk) hv = (h, print_entry-Lacks key value hk hv)

block_step-entry :
    (key value : Bytes) (blocks : List KeyValueMap) (current : KeyValueMap)
    → Lacks b':' key
    → block_step (print_entry (key, value)) (blocks, current)
      ≡ (blocks, insert (trim key) (trim value) current)
unfolding block_step
block_step-entry key value blocks current h =
    rw (trim-colon key value, find-append b':' key value h, take_prefix, drop_prefix) refl

insert-filled : (key value : Bytes) (m : KeyValueMap) → is_empty (insert key value m) ≡ false
unfolding insert
insert-filled key value [] = refl
insert-filled key value ((j, w) ∷ m) = ground arith

enter-filled :
    (entries : List RawEntry) (m : KeyValueMap)
    → is_empty m ≡ false
    → is_empty (enter entries m) ≡ false
enter-filled [] m h = h
enter-filled ((key, value) ∷ entries) m h =
    enter-filled entries _ (insert-filled (trim key) (trim value) m)

block_step-blank :
    (blocks : List KeyValueMap) (current : KeyValueMap)
    → is_empty current ≡ false
    → block_step [] (blocks, current) ≡ (blocks ++ current ∷ [], [])
unfolding block_step trim trim_start trim_end
block_step-blank blocks current h = rw h refl

-- The lines of a block close it.
block_loop-block :
    (entries : List RawEntry) (rest : Bytes) (blocks : List KeyValueMap) (current : KeyValueMap)
    → All IsEntry entries
    → is_empty (enter entries current) ≡ false
    → block_loop (lines b'\n' (print_block entries ++ rest)) (blocks, current)
      ≡ block_loop (lines b'\n' rest) (blocks ++ enter entries current ∷ [], [])
unfolding block_loop
block_loop-block [] rest blocks current h filled =
    rw (lines-append b'\n' [] rest tt, block_loop, block_step-blank blocks current filled) refl
block_loop-block ((key, value) ∷ entries) rest blocks current ((hc, (hk, hv)), hs) filled =
    rw
      (
        append_assoc,
        lines-append b'\n' (print_entry (key, value)) (print_block entries ++ rest)
            (print_entry-Lacks key value hk hv),
        block_loop,
        block_step-entry key value blocks current hc,
      )
      (block_loop-block entries rest blocks _ hs filled)

block_filled :
    (entries : List RawEntry) → is_empty entries ≡ false → is_empty (enter entries []) ≡ false
block_filled [] h = absurd (ground arith)
block_filled ((key, value) ∷ entries) h =
    enter-filled entries _ (insert-filled (trim key) (trim value) [])

block_loop-blocks :
    (blocks : List (List RawEntry)) (done : List KeyValueMap)
    → All IsBlock blocks
    → close_block (block_loop (lines b'\n' (print_blocks blocks)) (done, []))
      ≡ done ++ map (λ entries. enter entries []) blocks
unfolding close_block block_loop lines
block_loop-blocks [] done h = rw append-nil refl
block_loop-blocks (block ∷ blocks) done ((filled, h), hs) =
    rw (block_loop-block block (print_blocks blocks) done [] h (block_filled block filled)) (
      block_loop-blocks blocks (done ++ enter block [] ∷ []) hs
      ∙ append_assoc done (enter block [] ∷ []) _)

-- A text of blocks of `key: value` lines, each block followed by a blank line, is read as those
-- blocks in their order: a block's map holds the trimmed values under the trimmed keys, and of two
-- values with one key the later one. No block is empty, no key holds a colon, and no key or value
-- a line break.
pub parse_colon_blocks-print_blocks :
    (blocks : List (List RawEntry))
    → All IsBlock blocks
    → parse_colon_blocks (print_blocks blocks) ≡ map (λ entries. enter entries []) blocks
unfolding parse_colon_blocks
parse_colon_blocks-print_blocks blocks h = block_loop-blocks blocks [] h
