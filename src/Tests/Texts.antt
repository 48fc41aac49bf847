-- ===== src/Tests/Texts.antt =====
-- Texts and numbers as the kernel prints them, and JSON.
use archspec.Base.{
  Bytes, ◌^◌, ◌≡◌, refl, List, [], ◌∷◌, ◌++◌, some, codes, negsuc, ◌>>=◌, map, arith,
}
use archspec.Report.Field.{nat_default, list_default}
use archspec.Report.Cpu.{x86_64}
use archspec.Report.System.{system_info_with}
use archspec.Number.{
  u64_mod, u32_mod, parse_u64, parse_i64, to_decimal, int_to_decimal, parse_size_bytes,
  suffix_multiplier,
}
use archspec.Number.Parse.{parse_u64-digits}
use archspec.Number.RoundTrip.{parse_u64-to_decimal, parse_i64-int_to_decimal}
use archspec.Number.Size.{parse_size_bytes-suffix, checked_times, power_of}
use archspec.CpuList.{cpu_list_count, cpu_list_loop}
use archspec.CpuList.Fuel.{cpu_list_loop-pieces, add_tokens}
use archspec.Text.Pieces.{pieces}
use archspec.CpuList.Total.{cpu_list_count-print_ranges, single, range, print_ranges}
use archspec.Text.Unquote.{escaped, unquote_value-escaped}
use archspec.Text.Path.{basename-join_path}
use archspec.Text.{basename, join_path, unquote_value, lower_copy}
use archspec.Json.Writer.{escape_json}
use archspec.Json.Reader.{read_json, read_string}
use archspec.Json.ReadString.{read_string-escape_json}
use archspec.Json.Value.{Value, str, array, object}
use archspec.Json.Builder.{Members}
use archspec.Json.Report.Names.{report_to_json-names}
use archspec.Json.Report.{report_to_json}
use archspec.Json.Report.Document.{read_json-report_to_json, report_tree}
use archspec.KeyValue.{parse_colon_blocks}
use archspec.KeyValue.Blocks.{parse_colon_blocks-print_blocks, print_blocks, enter, RawEntry}
use archspec.Json.Report.{system_info_to_json}
use archspec.Json.Report.System.{system_info_tree, read_json-system_info_to_json}
use archspec.Tests.Samples.{sample_report}

read_json-report_to_json_example :
    read_json (report_to_json sample_report) ≡ some (report_tree sample_report)
read_json-report_to_json_example = read_json-report_to_json sample_report

cpu_list_count-print_ranges_example :
    cpu_list_count (print_ranges (range 0 3 ∷ single 8 ∷ [])) ≡ some 5
cpu_list_count-print_ranges_example =
    cpu_list_count-print_ranges (range 0 3) (single 8 ∷ [])
      ((omega arith, omega arith), (omega arith, tt))

parse_u64-digits_example : parse_u64 (codes " 42\n") ≡ some 42
parse_u64-digits_example =
    parse_u64-digits (codes " ") (codes "42") (codes "\n") (refl, tt) (omega arith, omega arith)
      ((omega arith, omega arith), ((omega arith, omega arith), tt)) (refl, tt)

parse_size_bytes-suffix_example :
    parse_size_bytes (codes "32K\n")
    ≡ (power_of (lower_copy (codes "K")) >>= λ p. checked_times 32 (1024 ^ p))
unfolding archspec.Number.digit_value
parse_size_bytes-suffix_example =
    parse_size_bytes-suffix [] (codes "32") (codes "K") (codes "\n") tt (λ e. absurd (ground arith))
      ((omega arith, omega arith), ((omega arith, omega arith), tt)) (refl, tt) refl
      ((λ e. absurd (omega arith)), tt) (refl, tt)

parse_u64-to_decimal_example : parse_u64 (to_decimal 42 ++ codes "\n") ≡ some 42
parse_u64-to_decimal_example = parse_u64-to_decimal [] 42 (codes "\n") tt (omega arith) (refl, tt)

parse_i64-int_to_decimal_example :
    parse_i64 (int_to_decimal (negsuc 0) ++ codes "\n") ≡ some (negsuc 0)
parse_i64-int_to_decimal_example =
    parse_i64-int_to_decimal [] (negsuc 0) (codes "\n") tt (omega arith) (refl, tt)

abbrev sample_blocks : List (List RawEntry)
sample_blocks =
    ((codes "processor\t", codes " 0") ∷ (codes "model name\t", codes " X") ∷ [])
    ∷ ((codes "processor\t", codes " 1") ∷ [])
    ∷ []

parse_colon_blocks-print_blocks_example :
    parse_colon_blocks (print_blocks sample_blocks)
    ≡ map (λ entries. enter entries []) sample_blocks
parse_colon_blocks-print_blocks_example =
    parse_colon_blocks-print_blocks sample_blocks (ground arith)

read_string-escape_json_example :
    read_string (escape_json (codes "a\"b\n") ++ b'"' ∷ codes ",")
    ≡ some (codes "a\"b\n", codes ",")
read_string-escape_json_example = read_string-escape_json (codes "a\"b\n") (codes ",")

read_json-system_info_to_json_example :
    read_json (system_info_to_json (system_info_with x86_64))
    ≡ some (system_info_tree (system_info_with x86_64))
read_json-system_info_to_json_example = read_json-system_info_to_json (system_info_with x86_64)

unquote_value-escaped_example :
    unquote_value (codes " \"" ++ (escaped (codes "a\"b") ++ codes "\"\n")) ≡ codes "a\"b"
unquote_value-escaped_example =
    unquote_value-escaped (codes " ") (codes "a\"b") (codes "\n") (refl, tt) (refl, tt)

basename-join_path_example : basename (join_path (codes "/sys") (codes "eth0")) ≡ codes "eth0"
basename-join_path_example =
    basename-join_path (codes "/sys") (codes "eth0") (λ e. absurd (ground arith))
      (refl, (refl, (refl, (refl, tt))))

cpu_list_loop-pieces_example :
    cpu_list_loop 6 (codes "0-3,8") 0 ≡ add_tokens (pieces (codes "0-3,8")) 0
cpu_list_loop-pieces_example = cpu_list_loop-pieces 6 (codes "0-3,8") 0 (omega arith)

report_to_json-names_example :
    (version_value : Value) × (producer : Value) × (names : List Bytes) × (members : Members)
    × (read_json (report_to_json sample_report)
        ≡ some (
            object (
              (codes "schema_version", version_value)
              ∷ (codes "producer", producer)
              ∷ (codes "collected_categories", array (map str names))
              ∷ (codes "data", object members)
              ∷ [])))
    × (map (λ member. member.0) members ≡ names)
report_to_json-names_example = report_to_json-names sample_report
