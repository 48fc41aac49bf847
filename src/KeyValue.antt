-- ===== src/KeyValue.antt =====
-- src/internal.hh: blocks of `key: value` lines, and the values of a block.
pub mod Blocks
use archspec.Base.{
  ℕ, suc, Bool, List, [], ◌∷◌, ◌++◌, Option, none, some, Bytes, if◌then◌else◌, is_empty, take, drop,
}
use archspec.Base.Dict.{Dict, lookup, insert}
use archspec.Text.{trim, find, lines}
use archspec.Number.{parse_u64}
use archspec.Report.Field.{
  not_found, of_value, unavailable, U64Field, StringField, nat_default, list_default,
}
use archspec.Read.{parsed_field}

abbrev pub KeyValueMap : Type 0
KeyValueMap = Dict Bytes

-- a key whose value is empty counts as missing
unfoldable pub map_value : KeyValueMap → Bytes → Option Bytes
map_value values key = elim (lookup key values) [
  | none ↦ none
  | some value ↦ if is_empty value then none else some value
]

unfoldable pub string_from_map : KeyValueMap → List Bytes → StringField
string_from_map values [] = unavailable not_found
string_from_map values (key ∷ keys) = elim (map_value values key) [
  | none ↦ string_from_map values keys
  | some value ↦ of_value value
]

unfoldable pub u64_from_map : KeyValueMap → List Bytes → U64Field
unfolding parsed_field
u64_from_map values [] = unavailable not_found
u64_from_map values (key ∷ keys) = elim (map_value values key) [
  | none ↦ u64_from_map values keys
  | some text ↦ parsed_field (parse_u64 text)
]

-- The loop's state is `blocks` and `current`.
unfoldable pub block_step : Bytes → List KeyValueMap × KeyValueMap → List KeyValueMap × KeyValueMap
block_step line (blocks, current) =
    if is_empty (trim line)
    then (if is_empty current then (blocks, current) else (blocks ++ current ∷ [], []))
    else elim (find b':' line) [
      | none ↦ (blocks, current)
      | some colon ↦
          (blocks, insert (trim (take colon line)) (trim (drop (suc colon) line)) current)
    ]

unfoldable pub block_loop :
    List Bytes → List KeyValueMap × KeyValueMap → List KeyValueMap × KeyValueMap
block_loop [] state = state
block_loop (line ∷ rest) state = block_loop rest (block_step line state)

-- the block that the end of the text closes
unfoldable pub close_block : List KeyValueMap × KeyValueMap → List KeyValueMap
close_block (blocks, current) = if is_empty current then blocks else blocks ++ current ∷ []

unfoldable pub parse_colon_blocks : Bytes → List KeyValueMap
parse_colon_blocks text = close_block (block_loop (lines b'\n' text) ([], []))
