-- ===== src/Python/Privacy.antt =====
-- src/python/archspec_inspect/_native.cc: sensitive values in what `collect_json` returns.
use archspec.Base.{
  none, subst, sym, ◌≡◌, refl, false, List, Bytes, Option, some, Option-cases, inl, inr, arith,
}
use archspec.Host.{Host, Address}
use archspec.Report.Options.{CollectOptions, default_options}
use archspec.Collect.Hidden.{IsOther}
use archspec.Collect.Hidden.Reads.{Readdressed}
use archspec.Collect.Redaction.{disguised, collect_report-disguised}
use archspec.Python.{Interpreter}
use archspec.Python.Call.{
  Arguments, options_of, report_text, Thrown, nothing, exception, something_else, collect_json,
  native_parse_categories, assign_root,
}
use archspec.Python.Trace.{>>-result}

module _ (py : Interpreter) where
  options_of-include_sensitive :
      (a : Arguments py) (o : CollectOptions)
      → a.include_sensitive ≡ 0
      → (options_of py a).result ≡ some o
      → o.include_sensitive ≡ false
  unfolding options_of
  options_of-include_sensitive a o zero h =
      let (_, _, h₁) = >>-result (native_parse_categories py a.categories) _ h in
      let (_, _, h₂) = >>-result (assign_root py a.procfs_root _ _) _ h₁ in
      let (_, _, h₃) = >>-result (assign_root py a.sysfs_root _ _) _ h₂ in
      let (_, _, h₄) = >>-result (assign_root py a.etc_root _ _) _ h₃ in
      let (_, _, h₅) = >>-result (assign_root py a.dev_root _ _) _ h₄ in ground arith

  -- the options of a call, where its arguments are accepted
  abbrev pub call_options : Arguments py → CollectOptions
  call_options a = elim (options_of py a).result [ none ↦ default_options | some o ↦ o ]

  report_text-disguised :
      (h : Host) (thrown : Thrown) (o : CollectOptions) (name : Bytes)
      (addresses : Option (List (Bytes × Address))) (w : Readdressed o h.files)
      → o.include_sensitive ≡ false
      → report_text py (disguised h name addresses w) thrown o ≡ report_text py h thrown o
  unfolding report_text
  report_text-disguised h nothing o name addresses w private =
      rw (collect_report-disguised h name addresses w private) refl
  report_text-disguised h (exception what) o name addresses w private = refl
  report_text-disguised h something_else o name addresses w private = refl

  -- Where `include_sensitive` is left at 0, what a call of `collect_json` returns and does to the
  -- interpreter is the same whatever the host is called, whatever addresses `getifaddrs` gives, and
  -- whatever the files `address` of the interfaces in the class/net of the sysfs root hold.
  pub collect_json-disguised :
      (h : Host) (thrown : Thrown) (a : Arguments py) (name : Bytes)
      (addresses : Option (List (Bytes × Address))) (w : Readdressed (call_options a) h.files)
      → a.include_sensitive ≡ 0
      → collect_json py (disguised h name addresses w) thrown (some a)
        ≡ collect_json py h thrown (some a)
  unfolding collect_json
  collect_json-disguised h thrown a name addresses w zero =
      elim (Option-cases (options_of py a).result) [
        | inl e ↦ rw e refl
        | inr (o, e) ↦
            let same_options : call_options a ≡ o = rw (e, call_options) refl in
            let w' : Readdressed o h.files = record {
              opened = w.opened;
              same = λ path h. w.same path (subst (λ p. IsOther p path) (sym same_options) h);
            } in
            rw
              (
                e,
                report_text-disguised h thrown o name addresses w'
                    (options_of-include_sensitive a o zero e),
              )
              refl
      ]
