-- ===== src/Tests/Samples.antt =====
-- A small host and a report for the tests.
use archspec.Base.{
  true, false, List, [], ◌∷◌, some, codes, pos, Bytes, is_empty, length, head_or, map, ◌==◌,
}
use archspec.Python.{Interpreter}
use archspec.Python.Call.{Arguments}
use archspec.Report.Field.{nat_default, list_default}
use archspec.Report.Cpu.{x86_64}
use archspec.Report.System.{system_info_with}
use archspec.Report.Options.{Report, CollectOptions, default_options}
use archspec.Host.{Host, Files, no_such_file, inet, enoent}
use archspec.Read.Scaled.{number_file}

-- A host with two files of one number each, and a listing of two names.
abbrev pub sample_files : Files
sample_files = record {
  exists = λ _. false;
  exists_error = λ _. no_such_file;
  is_directory = λ _. true;
  open_file = λ _. some (number_file 42 []);
  directory = λ _. some (codes "card1" ∷ codes "card0" ∷ []);
  read_symlink = λ path. some path;
  access_rw = λ _. false;
}

abbrev pub sample_host : Host
sample_host = record {
  files = sample_files;
  uname = some (record {
    sysname = codes "Linux";
    release = codes "6.1";
    version = codes "#1";
    machine = codes "x86_64";
    nodename = codes "alpha";
  });
  page_size = pos 4096;
  hardware_concurrency = 4;
  getifaddrs = some ((codes "card0", inet (some (codes "10.0.0.1"))) ∷ []);
  perf_event_open = λ _. enoent;
  pointer_bytes = 8;
  little_endian = true;
  stale_arch = x86_64;
}

abbrev pub private_options : CollectOptions
private_options = record default_options { categories = 513; include_sensitive = false }

abbrev pub sample_report : Report
sample_report = record { categories = 513; system = system_info_with x86_64 }

-- An interpreter whose objects are lists of texts: none is `None`, one is a text, more are an iterable.
abbrev pub sample_python : Interpreter
sample_python = record {
  Object = List Bytes;
  is_none = is_empty;
  is_unicode = λ object. length object == 1;
  as_utf8 = λ object. some (head_or object []);
  iterate = λ object. some (map (λ text. text ∷ []) object, false);
  new_text = λ text. some (text ∷ []);
}

-- a call with two categories and every other argument left out
abbrev pub sample_arguments : Arguments sample_python
sample_arguments = record {
  categories = some (codes "os" ∷ codes "net" ∷ []);
  include_sensitive = 0;
  allow_perf_open = 0;
  allow_slow_probes = 0;
  allow_vendor_libraries = 0;
  procfs_root = some [];
  sysfs_root = some [];
  etc_root = some [];
  dev_root = some [];
}
