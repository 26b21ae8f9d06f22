-- ===== src/Csv.antt =====
-- src/common/csv: reader.cpp, writer.cpp, file_reader.cpp and file_writer.cpp. A file is its bytes.
-- The libraries' `trim` and tokenizer are parameters of the reader.
pub mod RoundTrip
mod Tests
use postboy.Prelude.{
  ℕ, zero, suc, ◌+◌, max, Option, none, some, List, [], ◌∷◌, ◌++◌, length, ◌==◌, if◌then◌else◌,
  Bool, false, Bytes, bytes_eq,
}

abbrev pub Row : Type 0
Row = List Bytes

-- A row by its headers; a header stands in it once.
abbrev pub RowMap : Type 0
RowMap = List (Bytes × Bytes)

abbrev pub at_header : Bytes → RowMap → Option Bytes
at_header h [] = none
at_header h (e ∷ es) = let later = at_header h es in if bytes_eq e.0 h then some e.1 else later

-- `resultMap[header] = field`
abbrev pub assign_field : Bytes → Bytes → RowMap → RowMap
assign_field h field [] = (h, field) ∷ []
assign_field h field (e ∷ es) =
    let later = assign_field h field es in if bytes_eq e.0 h then (e.0, field) ∷ es else e ∷ later

-- What `std::getline` takes and leaves, on an input that is not at its end.
abbrev pub split_line : Bytes → Bytes × Bytes
split_line [] = ([], [])
split_line (c ∷ cs) =
    let (line, rest) = split_line cs in if c == 10 then ([], cs) else (c ∷ line, rest)

abbrev pub getline : Bytes → Option (Bytes × Bytes)
getline [] = none
getline (c ∷ cs) = some (split_line (c ∷ cs))

pub record Reader : Type 0 where
  pub input : Bytes
  pub headers : Row
  pub with_header : Bool

module _ (trim : Bytes → Bytes) (tokens : Bytes → List Bytes) where
  abbrev pub line_or_end : Bytes → Option Bytes
  line_or_end [] = none
  line_or_end (c ∷ cs) = some (c ∷ cs)

  abbrev pub trimmed : Bytes → Option (Bytes × Bytes) → Option Bytes × Bytes
  trimmed input none = (none, input)
  trimmed input (some (line, rest)) = (line_or_end (trim line), rest)

  unfoldable pub readline : Bytes → Option Bytes × Bytes
  readline input = trimmed input (getline input)

  -- The header is skipped before the first row.
  abbrev pub past_header : Reader → Reader
  past_header r =
      if r.with_header
      then record { input = (readline r.input).1; headers = r.headers; with_header = false }
      else r

  abbrev pub row_of : Option Bytes → Option Row
  row_of none = none
  row_of (some line) = some (tokens line)

  unfoldable pub read : Reader → Option Row × Reader
  unfolding readline
  read r =
      let p = past_header r in
      let (line, rest) = readline p.input in
      (row_of line, record { input = rest; headers = p.headers; with_header = p.with_header })

  -- The loop of `ReadMap`; none where there are more tokens than headers, which is out of bounds.
  abbrev pub with_headers : Row → List Bytes → RowMap → Option RowMap
  with_headers headers [] result = some result
  with_headers [] (t ∷ ts) result = none
  with_headers (h ∷ hs) (t ∷ ts) result = with_headers hs ts (assign_field h t result)

  abbrev pub map_of : Row → Option Bytes → Option (Option RowMap)
  map_of headers none = some none
  map_of headers (some line) = elim (with_headers headers (tokens line) []) [
    | none ↦ none
    | some m ↦ some (some m)
  ]

  unfoldable pub read_map : Reader → Option (Option RowMap) × Reader
  unfolding readline
  read_map r =
      let p = past_header r in
      let (line, rest) = readline p.input in
      (
        map_of p.headers line,
        record { input = rest; headers = p.headers; with_header = p.with_header },
      )

-- `Writer`, with what it wrote.
pub record Writer : Type 0 where
  pub out : Bytes
  pub sep : ℕ
  pub writer_headers : Row

abbrev pub write_fields : ℕ → List Bytes → Bytes
write_fields sep [] = []
write_fields sep (f ∷ fs) = (sep ∷ f) ++ write_fields sep fs

abbrev pub row_line : ℕ → Row → Option Bytes
row_line sep [] = none
row_line sep (f ∷ fs) = some (f ++ (write_fields sep fs ++ (10 ∷ [])))

abbrev pub written : Writer → Option Bytes → Option Writer
written w none = none
written w (some line) =
    some (record { out = w.out ++ line; sep = w.sep; writer_headers = w.writer_headers })

-- `WriteRow` of a row; none for an empty row, whose first field is out of bounds.
unfoldable pub write_row : Row → Writer → Option Writer
write_row row w = written w (row_line w.sep row)

-- The fields by the first headers, as many as the row has; none where a header has no field or there is no
-- such header.
abbrev pub fields_by : ℕ → Row → RowMap → Option Row
fields_by zero headers row = some []
fields_by (suc n) [] row = none
fields_by (suc n) (h ∷ hs) row = elim (at_header h row) [
  | none ↦ none
  | some f ↦ elim (fields_by n hs row) [ none ↦ none | some fs ↦ some (f ∷ fs) ]
]

abbrev pub line_of : ℕ → Option Row → Option Bytes
line_of sep none = none
line_of sep (some row) = row_line sep row

-- `WriteRow` of a map; its first header is read even when the map is empty.
unfoldable pub write_row_map : RowMap → Writer → Option Writer
write_row_map row w =
    written w (line_of w.sep (fields_by (max 1 (length row)) w.writer_headers row))

-- A new `FileWriter`, which writes the headers first, and a new `FileReader`.
abbrev pub file_writer : Row → Option Writer
file_writer headers = write_row headers (record { out = []; sep = 124; writer_headers = headers })

abbrev pub file_reader : Bytes → Row → Bool → Reader
file_reader file headers with_header = record {
  input = file;
  headers = headers;
  with_header = with_header;
}
