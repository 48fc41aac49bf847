-- ===== src/Cli/Run/Laws.antt =====
-- tools/archspec-inspect.cc: what a run of the program writes.
use archspec.Base.{
  ◌≡◌, ◌⊎◌, refl, true, false, List, [], ◌∷◌, ◌++◌, Bytes, Option, some, codes, contains, inl, inr,
  map,
}
use archspec.Host.{Host, Address}
use archspec.Json.Writer.{json_string, json_bool, escape_json, escape_char}
use archspec.Json.RoundTrip.{read_json-print}
use archspec.Json.Value.{Value, print, str, bool, array, object}
use archspec.Json.Reader.{read_json}
use archspec.Json.Report.{version, report_schema_version, category_entries}
use archspec.Collect.Hidden.Reads.{Readdressed}
use archspec.Collect.Redaction.{disguised}
use archspec.Cli.{
  Outcome, show_help, show_version, show_capabilities, usage_error, report, Settings, main_args,
}
use archspec.Cli.Privacy.{include_option, outcome_options, main_args-disguised}
use archspec.Cli.Print.{newline, print_capabilities}
use archspec.Cli.Run.{output_of, main}

-- The document that `--capabilities` prints.
abbrev pub capabilities_tree : Value
capabilities_tree = object (
    (codes "name", str (codes "archspec-inspect"))
    ∷ (codes "version", str version)
    ∷ (codes "report_schema_version", str report_schema_version)
    ∷ (codes "formats", array (str (codes "text") ∷ str (codes "json") ∷ []))
    ∷ (codes "categories", array (map (λ entry. str (codes entry.1)) category_entries))
    ∷ (codes "safe_by_default", bool true)
    ∷ (codes "supports_redaction", bool true)
    ∷ [])

-- A text that is one JSON document and a line break.
unfoldable pub IsDocument : Bytes → Value → Type 0
IsDocument text v = (s : Bytes) × (text ≡ s ++ newline) × (read_json s ≡ some v)

print_capabilities-tree : print_capabilities ≡ print capabilities_tree ++ newline
unfolding print_capabilities print json_string escape_json escape_char json_bool
print_capabilities-tree = refl

-- Where the arguments ask for the capabilities, the run writes a document to its standard output
-- that is read back as the program's name and versions, its formats and its categories, and a line
-- break.
pub main-capabilities :
    (args : List Bytes) (h : Host)
    → main_args args ≡ show_capabilities
    → IsDocument (main args h).stdout capabilities_tree
unfolding main output_of IsDocument
main-capabilities args h e =
    rw (e, output_of)
      (print capabilities_tree, print_capabilities-tree, read_json-print capabilities_tree)

-- An outcome is a report, an error, or a text that does not depend on the host.
Outcome-cases :
    (o : Outcome)
    → ((s : Settings) × (o ≡ report s))
      ⊎ (((message : Bytes) × (o ≡ usage_error message))
          ⊎ ((g h : Host)
              → (output_of o g ≡ output_of o h)
                × (((output_of o h).status ≡ 0) × ((output_of o h).stderr ≡ []))))
unfolding output_of
Outcome-cases (report s) = inl (s, refl)
Outcome-cases (usage_error message) = inr (inl (message, refl))
Outcome-cases show_help = inr (inr (λ g h. (refl, (refl, refl))))
Outcome-cases show_version = inr (inr (λ g h. (refl, (refl, refl))))
Outcome-cases show_capabilities = inr (inr (λ g h. (refl, (refl, refl))))

-- Unless `--include-sensitive` is among the arguments, what the run writes and its status are the
-- same whatever the host is called, whatever addresses `getifaddrs` gives, and whatever the files
-- `address` of the interfaces in the class/net of the sysfs root hold.
pub main-disguised :
    (args : List Bytes) (h : Host) (name : Bytes) (addresses : Option (List (Bytes × Address)))
    (w : Readdressed (outcome_options (main_args args)) h.files)
    → contains args include_option ≡ false
    → main args (disguised h name addresses w) ≡ main args h
unfolding main output_of
main-disguised args h name addresses w new = elim (Outcome-cases (main_args args)) [
  | inl (s, e) ↦ rw (e, output_of, main_args-disguised args s h name addresses w new e) refl
  | inr (inl (message, e)) ↦ rw (e, output_of) refl
  | inr (inr fixed) ↦ (fixed _ h).0
]
