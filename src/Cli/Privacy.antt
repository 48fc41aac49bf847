-- ===== src/Cli/Privacy.antt =====
-- tools/archspec-inspect.cc: the option include_sensitive through the loop over the arguments.
use archspec.Base.{
  ◌≡◌, subst, sym, ◌≢◌, ◌⊎◌, refl, false, List, [], ◌∷◌, Bytes, Option, codes, contains, eq_bytes,
  inl, inr, arith,
}
use archspec.Host.{Host, Address}
use archspec.Collect.Collector.{collect_report}
use archspec.Collect.Redaction.{disguised, collect_report-disguised}
use archspec.Collect.Hidden.{IsOther}
use archspec.Collect.Hidden.Reads.{Readdressed}
use archspec.Report.Options.{CollectOptions, default_options}
use archspec.Cli.{
  Parsed, good, bad, Settings, Outcome, report, Action, finish, switch, takes, ValueOption, format,
  categories, procfs_root, sysfs_root, etc_root, dev_root, action_of, take_option, parse_args,
  main_args,
}

abbrev pub include_option : Bytes
include_option = codes "--include-sensitive"

action_of-private :
    (argument : Bytes) (s t : Settings)
    → eq_bytes argument include_option ≡ false
    → s.options.include_sensitive ≡ false
    → action_of argument s ≡ switch t
    → t.options.include_sensitive ≡ false
unfolding action_of
action_of-private argument s t other private e = ground arith

action_of-finish : (argument : Bytes) (s t : Settings) → action_of argument s ≢ finish (report t)
unfolding action_of
action_of-finish argument s t e = ground arith

take_option-private :
    (option : ValueOption) (value : Bytes) (s t : Settings)
    → s.options.include_sensitive ≡ false
    → take_option option value s ≡ good t
    → t.options.include_sensitive ≡ false
unfolding take_option
take_option-private format value s t private e = ground arith
take_option-private categories value s t private e = ground arith
take_option-private procfs_root value s t private e = ground arith
take_option-private sysfs_root value s t private e = ground arith
take_option-private etc_root value s t private e = ground arith
take_option-private dev_root value s t private e = ground arith

Action-cases :
    (a : Action)
    → ((t : Settings) × (a ≡ switch t))
      ⊎ (((option : ValueOption) × (a ≡ takes option)) ⊎ ((o : Outcome) × (a ≡ finish o)))
Action-cases (switch t) = inl (t, refl)
Action-cases (takes option) = inr (inl (option, refl))
Action-cases (finish o) = inr (inr (o, refl))

Parsed-cases : {A : Type 0} (p : Parsed A) → ((a : A) × (p ≡ good a)) ⊎ ((m : Bytes) × (p ≡ bad m))
Parsed-cases (good a) = inl (a, refl)
Parsed-cases (bad m) = inr (m, refl)

parse_args-private :
    (args : List Bytes) (s t : Settings)
    → contains args include_option ≡ false
    → s.options.include_sensitive ≡ false
    → parse_args args s ≡ report t
    → t.options.include_sensitive ≡ false
unfolding parse_args contains
parse_args-private [] s t new private e = ground arith
parse_args-private (argument ∷ []) s t new private e = elim (Action-cases (action_of argument s)) [
  | inl (u, p) ↦ ground (arith, action_of-private argument s u (ground arith) private p)
  | inr (inl (option, p)) ↦ absurd (ground arith)
  | inr (inr (o, p)) ↦ absurd (ground (arith, action_of-finish argument s t))
]
parse_args-private (argument ∷ value ∷ rest) s t new private e =
    elim (Action-cases (action_of argument s)) [
      | inl (u, p) ↦
          parse_args-private (value ∷ rest) u t (ground arith)
            (action_of-private argument s u (ground arith) private p) (ground arith)
      | inr (inl (option, p)) ↦ elim (Parsed-cases (take_option option value s)) [
        | inl (u, q) ↦
            parse_args-private rest u t (ground arith)
              (take_option-private option value s u private q) (ground arith)
        | inr (m, q) ↦ absurd (ground arith)
      ]
      | inr (inr (o, p)) ↦ absurd (ground (arith, action_of-finish argument s t))
    ]

accepted-private :
    (args : List Bytes) (s : Settings)
    → contains args include_option ≡ false
    → main_args args ≡ report s
    → s.options.include_sensitive ≡ false
unfolding main_args
accepted-private args s new e = parse_args-private args _ s new refl e

-- the options of an outcome, where it is a report
abbrev pub outcome_options : Outcome → CollectOptions
outcome_options (report s) = s.options
outcome_options _ = default_options

-- Where the arguments are accepted and `--include-sensitive` is not among them, the report that the
-- program makes is the same on a host in disguise.
pub main_args-disguised :
    (args : List Bytes) (s : Settings) (h : Host) (name : Bytes)
    (addresses : Option (List (Bytes × Address)))
    (w : Readdressed (outcome_options (main_args args)) h.files)
    → contains args include_option ≡ false
    → main_args args ≡ report s
    → collect_report (disguised h name addresses w) s.options ≡ collect_report h s.options
main_args-disguised args s h name addresses w new e =
    collect_report-disguised {o = s.options} h name addresses
      (record {
        opened = w.opened;
        same = λ path h.
            w.same path (subst (λ outcome. IsOther (outcome_options outcome) path) (sym e) h);
      })
      (accepted-private args s new e)
