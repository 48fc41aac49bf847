-- ===== src/Json/Report/Names.antt =====
-- src/json.cc: the two lists of categories in a report.
use archspec.Base.{
  ◌≡◌, refl, some, Bool, true, false, List, [], ◌∷◌, ◌++◌, Bytes, String, codes, map, if◌then◌else◌,
}
use archspec.Report.System.{SystemInfo}
use archspec.Report.Options.{CollectCategory, Report}
use archspec.Json.Value.{Value, str, array, object}
use archspec.Json.Reader.{read_json}
use archspec.Json.Builder.{Members}
use archspec.Json.Report.{category_entries, report_to_json}
use archspec.Json.Report.Document.{
  selected_names, member_if, data_members, read_json-report_to_json,
}

keys : Members → List Bytes
keys ms = map (λ m. m.0) ms

keys-member_if :
    (selected : Bool) (key : String) (v : Value) (ms : Members)
    → keys (member_if selected key v ++ ms) ≡ (if selected then codes key ∷ [] else []) ++ keys ms
unfolding keys
keys-member_if true key v ms = refl
keys-member_if false key v ms = refl

keys-last :
    (selected : Bool) (key : String) (v : Value)
    → keys (member_if selected key v) ≡ (if selected then codes key ∷ [] else []) ++ []
unfolding keys
keys-last true key v = refl
keys-last false key v = refl

data_members-names :
    (flags : CollectCategory) (info : SystemInfo)
    → map (λ member. member.0) (data_members flags info) ≡ selected_names flags category_entries
unfolding keys
data_members-names flags info = simp (keys-member_if, keys-last)

-- In the JSON of every report, read back, `collected_categories` is a list of texts and `data` an
-- object, whose keys are these texts in the same order.
pub report_to_json-names :
    (report : Report)
    → (version_value : Value) × (producer : Value) × (names : List Bytes) × (members : Members)
      × (read_json (report_to_json report)
          ≡ some (
              object (
                (codes "schema_version", version_value)
                ∷ (codes "producer", producer)
                ∷ (codes "collected_categories", array (map str names))
                ∷ (codes "data", object members)
                ∷ [])))
      × (map (λ member. member.0) members ≡ names)
report_to_json-names report = (
  _,
  _,
  selected_names report.categories category_entries,
  data_members report.categories report.system,
  read_json-report_to_json report,
  data_members-names report.categories report.system,
)
