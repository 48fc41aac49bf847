-- ===== src/Collect/Redaction.antt =====
-- src/core.cc, src/os.cc and src/net.cc: what a report without sensitive values says of them.
use archspec.Base.{
  ◌≡◌, refl, ap, false, List, [], ◌∷◌, Bytes, Option, none, some, All, codes, Option-cases, inl,
  inr, Bool-cases,
}
use archspec.Report.Field.{redacted, unavailable, StringField, list_default}
use archspec.Report.Options.{CollectOptions}
use archspec.Report.Net.{NetInterfaceInfo}
use archspec.Host.{Host, Files, Uname, Address}
use archspec.Read.{sys_path, list_dir}
use archspec.Text.{join_path}
use archspec.Collect.Block.{read_bool_number}
use archspec.Collect.Hidden.{is_other}
use archspec.Collect.Hidden.Reads.{Readdressed, moved, moved_rules}
use archspec.Collect.Hidden.Devices.{
  collect_block-moved, collect_thermal-moved, collect_pci-moved, cpu_dirs-moved,
  collect_cache-moved,
}
use archspec.Collect.Hidden.Machine.{
  cpu_flags-moved, collect_isa-moved, collect_power-moved, collect_virtualization-moved,
  transparent-moved, collect_numa_nodes-moved,
}
use archspec.Collect.Hidden.Gpu.{collect_gpu-moved}
use archspec.Collect.Hidden.Platform.{collect_platform-moved}
use archspec.Collect.Hidden.Cpu.{topology_of-moved, first_existing-moved}
use archspec.Collect.Os.{redact, collect_os, uname_field}
use archspec.Collect.Net.{Addresses, net_interface, net_interfaces, collect_net, collect_addresses}
use archspec.Collect.Cpu.{collect_cpu}
use archspec.Collect.Cpu.Identity.{arch_of, arch_name_of}
use archspec.Collect.Memory.{collect_memory}
use archspec.Collect.Perf.{collect_perf, perf_flags, hardware_counter_availability}
use archspec.Collect.Collector.{collect, collect_report}

-- the same host under another name
abbrev pub renamed : Option Uname → Bytes → Option Uname
renamed none name = none
renamed (some uts) name = some (record uts { nodename = name })

-- The same host under another name, with other network addresses of its interfaces, and with other
-- files of their hardware addresses.
abbrev pub disguised :
    {o : CollectOptions} (h : Host)
    → Bytes
    → Option (List (Bytes × Address))
    → Readdressed o h.files
    → Host
disguised h name addresses w = record h {
  uname = renamed h.uname name;
  getifaddrs = addresses;
  files = moved h.files w;
}

-- The field of a value that the report leaves out.
abbrev pub withheld : StringField
withheld = unavailable redacted

redact-withheld :
    (o : CollectOptions) (f : StringField) → o.include_sensitive ≡ false → redact o f ≡ withheld
unfolding redact
redact-withheld o f h = rw h

module _ {o : CollectOptions} (h : Host) (name : Bytes)
    (addresses : Option (List (Bytes × Address))) (w : Readdressed o h.files) where
  uname_field-renamed :
      (part : Uname → Bytes)
      → ((uts : Uname) → part (record uts { nodename = name }) ≡ part uts)
      → uname_field (disguised h name addresses w) part ≡ uname_field h part
  unfolding uname_field
  uname_field-renamed part same = elim (Option-cases h.uname) [
    | inl e ↦ rw e
    | inr (uts, e) ↦ rw (e, same uts)
  ]

  collect_os-disguised :
      o.include_sensitive ≡ false → collect_os (disguised h name addresses w) o ≡ collect_os h o
  unfolding collect_os is_other
  collect_os-disguised private = simp (
    moved_rules,
    redact-withheld o _ private,
    uname_field-renamed (λ (uts : Uname). uts.sysname) (λ _. refl),
    uname_field-renamed (λ (uts : Uname). uts.version) (λ _. refl),
    uname_field-renamed (λ (uts : Uname). uts.release) (λ _. refl),
    uname_field-renamed (λ (uts : Uname). uts.machine) (λ _. refl),
  )

  net_interface-disguised :
      (a b : Addresses) (path interface : Bytes)
      → o.include_sensitive ≡ false
      → net_interface (moved h.files w) o a path interface
        ≡ net_interface h.files o b path interface
  unfolding net_interface read_bool_number is_other
  net_interface-disguised a b path interface private =
      simp (moved_rules, redact-withheld o _ private)

  net_interfaces-disguised :
      (a b : Addresses) (root : Bytes) (names : List Bytes)
      → o.include_sensitive ≡ false
      → net_interfaces (moved h.files w) o a root names ≡ net_interfaces h.files o b root names
  unfolding net_interfaces
  net_interfaces-disguised a b root [] private = refl
  net_interfaces-disguised a b root (interface ∷ names) private = rw (
    net_interface-disguised a b _ interface private,
    net_interfaces-disguised a b root names private,
  )

  collect_net-disguised :
      o.include_sensitive ≡ false → collect_net (disguised h name addresses w) o ≡ collect_net h o
  unfolding collect_net list_dir
  collect_net-disguised private =
      ap (λ entries. record { entries = entries })
        (net_interfaces-disguised (collect_addresses (disguised h name addresses w) o)
          (collect_addresses h o) (sys_path o (codes "/class/net")) _ private)

  arch-disguised :
      (arch_of (disguised h name addresses w) ≡ arch_of h)
      × (arch_name_of (disguised h name addresses w) ≡ arch_name_of h)
  unfolding arch_of arch_name_of
  arch-disguised = elim (Option-cases h.uname) [
    | inl e ↦ rw e (refl, refl)
    | inr (uts, e) ↦ rw e (refl, refl)
  ]

  collect_cpu-disguised : collect_cpu (disguised h name addresses w) o ≡ collect_cpu h o
  unfolding collect_cpu is_other
  collect_cpu-disguised = simp (
    moved_rules, arch-disguised.0, arch-disguised.1, cpu_dirs-moved, topology_of-moved,
    first_existing-moved,
  )

  collect_perf-disguised : collect_perf (disguised h name addresses w) o ≡ collect_perf h o
  unfolding collect_perf perf_flags hardware_counter_availability is_other
  collect_perf-disguised = simp (moved_rules, cpu_flags-moved)

  collect_memory-disguised : collect_memory (disguised h name addresses w) o ≡ collect_memory h o
  unfolding collect_memory is_other
  collect_memory-disguised = simp (moved_rules, transparent-moved, collect_numa_nodes-moved)

  -- Without sensitive values a report is the same whatever the host is called, whatever addresses
  -- `getifaddrs` gives, and whatever the files `address` of the interfaces in the class/net of the
  -- sysfs root hold.
  pub collect_report-disguised :
      o.include_sensitive ≡ false
      → collect_report (disguised h name addresses w) o ≡ collect_report h o
  unfolding collect_report collect
  collect_report-disguised private = simp (
    collect_os-disguised private,
    collect_net-disguised private,
    collect_cpu-disguised,
    collect_perf-disguised,
    collect_memory-disguised,
    collect_isa-moved,
    collect_cache-moved,
    collect_pci-moved,
    collect_gpu-moved,
    collect_block-moved,
    collect_thermal-moved,
    collect_power-moved,
    collect_virtualization-moved,
    collect_platform-moved,
  )

-- The addresses of an interface are withheld.
abbrev pub IsPrivate : NetInterfaceInfo → Type 0
IsPrivate i =
    (i.mac_address ≡ withheld) × (i.ipv4_addresses ≡ withheld) × (i.ipv6_addresses ≡ withheld)

net_interfaces-IsPrivate :
    (fs : Files) (o : CollectOptions) (a : Addresses) (root : Bytes) (names : List Bytes)
    → o.include_sensitive ≡ false
    → All IsPrivate (net_interfaces fs o a root names)
unfolding net_interfaces net_interface
net_interfaces-IsPrivate fs o a root [] private = tt
net_interfaces-IsPrivate fs o a root (name ∷ names) private =
    elim (Bool-cases (fs.is_directory (join_path root name))) [
      | inl e ↦ rw e (
        (redact-withheld o _ private, redact-withheld o _ private, redact-withheld o _ private),
        net_interfaces-IsPrivate fs o a root names private,
      )
      | inr e ↦ rw e (net_interfaces-IsPrivate fs o a root names private)
    ]

-- Without sensitive values the fields for the host name and the kernel command line, and those of
-- every interface for its hardware and network addresses, say `redacted` and hold no value.
pub collect_withheld :
    (h : Host) (o : CollectOptions)
    → o.include_sensitive ≡ false
    → ((collect_os h o).hostname ≡ withheld)
      × ((collect_os h o).cmdline ≡ withheld)
      × All IsPrivate (collect_net h o).entries
unfolding collect_os collect_net
collect_withheld h o private = (
  redact-withheld o _ private,
  redact-withheld o _ private,
  net_interfaces-IsPrivate h.files o (collect_addresses h o) _ _ private,
)
