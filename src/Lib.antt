-- ===== src/Lib.antt =====
-- archspec collects what a Linux host says of itself (processors, memory, devices, operating system)
-- from procfs, sysfs, /etc and a few system calls, and prints it as a JSON report. The library
-- models its C++ code, for a POSIX host and the C locale.
--
-- Parts, and the files that model them:
--   * include/aview.hh: a Field is a value with a status, and a report has one struct per category.
--     Report/Field, Report/Os and so on have a record per struct, with its initial value; Report/Options
--     has CollectOptions and the category bits, as the number of the enum.
--   * src/internal.hh: Text (trim, join_path, basename, unquote_value), Number (parse_u64, parse_i64,
--     parse_size_bytes), CpuList (cpu_list_count), Read (read_file, read_u64_field, list_dir) and KeyValue
--     (parse_colon_blocks, map_value). A std::string is its list of bytes, a function with an
--     out-parameter and a bool returns an Option, and a std::map is an association list.
--   * src/os.cc, src/cpu.cc and the other collectors: Collect/Os, Collect/Cpu and so on, one function
--     per function of the source and one step function per loop body. A collector takes the options
--     and the host, and returns the struct of its category.
--     Report/Sound and Collect/Sound are about the validity and the status of the collected fields,
--     Collect/Width about those of 32 bits, and Collect/Redaction about include_sensitive. The modules
--     below Collect/Hidden follow the reads of every collector and tell them from those of the files
--     that hold hardware addresses. What the
--     parsers of meminfo and os-release promise is a function from names to values, which
--     Collect/Memory/Meminfo and Collect/Os/Release compute from the lines of the files; what
--     riscv_has_extension promises is said in Collect/Isa/Riscv of the parts of an ISA string.
--   * src/core.cc: Collect/Collector runs the collectors of the selected categories.
--   * src/json.cc: Json/Writer (escape_json, JsonObject, add_field, vector_to_json), Json/Part (one
--     to_json per struct) and Json/Report (to_json of Report and of SystemInfo). Json/Value, Json/Reader
--     and Json/Builder are the description that the writer is compared with: documents as trees,
--     their print, a reader, and the tree of every part.
--   * tools/archspec-inspect.cc: Cli has the loop over the arguments and parse_categories, Cli/Print the
--     texts that the program prints, and Cli/Run the program: the arguments and the host give the two
--     streams and the status. Cli/Spelled, Cli/Names and Cli/Refused are the command lines
--     as a user means them, and the mistakes in them.
--   * python/archspec_inspect/_native.cc: Python has the reading of category names, Python/Call the
--     functions of the module. Every call returns its result, if it has one, and the list of what it
--     did to the interpreter: references, exceptions and the global lock. Python/Replay runs such a
--     list and stops at a misuse. Python/Names and Python/Agreement say which categories are meant.
--   * examples/summary.cc: Summary has print_summary and main.
--
-- Outside the program: Host has the records Files and Host, which stand for the file system, uname,
-- sysconf, getifaddrs, access and perf_event_open. They are arguments of the collectors, and no
-- theorem assumes more of them than its hypotheses say. The record Interpreter of Python stands for
-- the CPython functions in the same way, and Thrown for what a collection throws, which the model of
-- the collectors, whose functions are total, does not say.
--
-- Integers are native numbers. Where the source computes in 64 or 32 bits, the model writes out the
-- range test or the remainder (u64_mod, u32_mod, i64_half). strtoull and strtoll are modelled from
-- the C standard: spaces, a sign, the base of the prefix for base 0, digits, and the range test that
-- errno reports.
--
-- Loops are structural recursion, but for four. The loop over a CPU list has fuel, one more than the
-- bytes of the text, since each round drops at least the comma; so has the loop over a text of
-- category names in the Python binding. The decimal print has the number itself for fuel, as it has no
-- more digits than its value. The JSON reader has the length of the text. Results that a theorem
-- states are never those of spent fuel.
--
-- The JSON reader takes the documents that the writer makes: objects, arrays, strings with the escapes
-- of RFC 8259 below U+0080, integers, true and false, and no space between tokens. Texts are bytes,
-- and bytes from 0x80 on stand for themselves.
--
-- Not modelled: the Windows branches; the tables with which the Python module is initialised; the
-- Python code over the binding; the tests and the build files. An exception inside a collector (a
-- failed allocation) is no part of the collectors' models.
pub mod Base
pub mod Report
pub mod Summary
pub mod Text
pub mod Number
pub mod CpuList
pub mod Json
pub mod Host
pub mod Python
pub mod Read
pub mod KeyValue
pub mod Collect
pub mod Cli
mod Tests
