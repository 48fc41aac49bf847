-- ===== src/CpuList.antt =====
-- src/internal.hh: `cpu_list_count`, the number of processors in a list such as `0-3,8`.
pub mod Fuel
pub mod Total
use archspec.Base.{
  ℕ, zero, suc, ◌+◌, ◌-◌, ◌%◌, ◌||◌, Option, none, some, Bytes, ltb, ◌==◌, if◌then◌else◌, ◌>>=◌,
  take, drop, is_empty, length,
}
use archspec.Text.{trim, find}
use archspec.Number.{parse_u64, u64_mod}

-- one round of the loop, on a trimmed token
unfoldable pub add_token : Bytes → ℕ → Option ℕ
add_token token count = elim (find b'-' token) [
  | none ↦ parse_u64 token >>= λ cpu. if count == u64_mod - 1 then none else some (count + 1)
  | some dash ↦ parse_u64 (take dash token) >>= λ first.
      parse_u64 (drop (suc dash) token) >>= λ last.
      if ltb last first
      then none
      else let range_count = (last - first + 1) % u64_mod in
        if range_count == 0 || ltb (u64_mod - 1 - range_count) count
        then none
        else some ((count + range_count) % u64_mod)
]

-- The second argument is the text from `start` on.
unfoldable pub cpu_list_loop : ℕ → Bytes → ℕ → Option ℕ
cpu_list_loop zero rest count = none
cpu_list_loop (suc fuel) rest count = elim (find b',' rest) [
  | none ↦ add_token (trim rest) count
  | some comma ↦ add_token (trim (take comma rest)) count >>= λ counted.
      cpu_list_loop fuel (drop (suc comma) rest) counted
]

-- Each round but the last drops a comma, so a round for each byte and one more is enough.
unfoldable pub cpu_list_count : Bytes → Option ℕ
cpu_list_count text =
    let value = trim text in
    if is_empty value then some 0 else cpu_list_loop (suc (length value)) value 0
