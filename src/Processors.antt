-- ===== src/Processors.antt =====
-- src/processors: what one call of `Process` does to each processor's own members. What `Take` gives is an
-- argument, and what is put, or that a finish is requested, is the result. An int64_t stands as its 64 bits.
pub mod Counting
pub mod Copy
pub mod Latency
mod Tests
use postboy.Prelude.{
  ℕ, ◌+◌, ◌%◌, ◌^◌, Option, none, some, [], ◌∷◌, ◌++◌, leb, if◌then◌else◌, Bool, false, Bytes,
}
use postboy.Csv.{getline}

pub data Output (T : Type 0) : Type 0 where
  puts : T → Output T
  requests_finish nothing : Output T

-- src/processors/common/range.cpp.
pub record Range : Type 0 where
  pub i : ℕ
  pub r : Option ℕ

-- `Init`, by the configuration's `l` and `r`.
abbrev pub range : ℕ → Option ℕ → Range
range l r = record { i = l % 2 ^ 64; r = r }

-- The int64_t is compared with the uint64_t as one.
abbrev pub at_end : ℕ → Option ℕ → Bool
at_end i none = false
at_end i (some r) = leb r i

unfoldable pub range_process : Range → Range × Output ℕ
range_process p =
    if at_end p.i p.r
    then (p, requests_finish)
    else (record { i = (p.i + 1) % 2 ^ 64; r = p.r }, puts p.i)

-- src/processors/common/dummy.cpp and src/processors/benchmark/dummy_uint64.cpp.
abbrev pub dummy_process : {T : Type 0} → Option T → Output T
dummy_process none = requests_finish
dummy_process (some x) = puts x

-- src/processors/common/null.cpp.
abbrev pub null_process : {T : Type 0} → Option T → Output T
null_process none = requests_finish
null_process (some x) = nothing

-- src/processors/common/file_reader.cpp: what is left of the file, and what is put.
abbrev pub read_line : Bytes → Option (Bytes × Bytes) → Bytes × Output Bytes
read_line file none = (file, requests_finish)
read_line file (some (line, rest)) = (rest, puts line)

unfoldable pub file_reader_process : Bytes → Bytes × Output Bytes
file_reader_process file = read_line file (getline file)

-- src/processors/common/file_writer.cpp: on what was written.
abbrev pub file_writer_process : Option Bytes → Bytes → Bytes × Output Bytes
file_writer_process none out = (out, requests_finish)
file_writer_process (some line) out = (out ++ (line ++ (10 ∷ [])), nothing)
