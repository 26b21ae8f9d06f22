-- ===== src/InstrumentManager/Reading.antt =====
-- A row that was read leaves less to read.
use postboy.Prelude.{
  ℕ, ◌≤◌, ◌<◌, ◌≡◌, refl, inl, inr, Option, none, some, List, [], ◌∷◌, arith, length, Bool-cases,
  Bytes, zero, suc, ◌≢◌, true,
}
use postboy.Csv.{
  Row, RowMap, Reader, split_line, readline, past_header, map_of, read_map, with_headers,
  assign_field,
}
use postboy.InstrumentManager.{column_names}

-- What is left behind a line is shorter than the input.
length-split_line : (c : ℕ) (cs : Bytes) → length (split_line (c ∷ cs)).1 < length (c ∷ cs)
length-split_line c [] = ground arith
length-split_line c (d ∷ ds) = ground (arith, length-split_line d ds)

module _ (trim : Bytes → Bytes) (tokens : Bytes → List Bytes) where
  length-readline : (input : Bytes) → length (readline trim tokens input).1 ≤ length input
  unfolding readline
  length-readline [] = omega arith
  length-readline (c ∷ cs) = omega (arith, length-split_line c cs)

  line-readline :
      (input : Bytes) (line : Bytes)
      → (readline trim tokens input).0 ≡ some line
      → length (readline trim tokens input).1 < length input
  unfolding readline
  line-readline [] line e = absurd (cc e)
  line-readline (c ∷ cs) line e = length-split_line c cs

  length-past_header : (r : Reader) → length (past_header trim tokens r).input ≤ length r.input
  length-past_header r = elim (Bool-cases r.with_header) [
    | inl e ↦ rw e (length-readline r.input)
    | inr e ↦ rw e (omega arith)
  ]

  no_line :
      (headers : Row) (line : Option Bytes) (row : RowMap)
      → map_of trim tokens headers line ≡ some (some row)
      → (l : Bytes) × (line ≡ some l)
  no_line headers none row e = absurd (cc e)
  no_line headers (some l) row e = (l, refl)

  pub row-read_map :
      (r : Reader) (row : RowMap)
      → (read_map trim tokens r).0 ≡ some (some row)
      → length (read_map trim tokens r).1.input < length r.input
  unfolding read_map
  row-read_map r row e =
      let p = past_header trim tokens r in
      let (l, line) = no_line p.headers (readline trim tokens p.input).0 row e in
      omega (arith, line-readline p.input l line, length-past_header r)

  -- The rows that the reader gives, so many of them at most, have no more fields than there are headers.
  abbrev pub LineFits : Row → Option Bytes → Type 0
  LineFits headers none = Unit {0}
  LineFits headers (some line) = length (tokens line) ≤ length headers

  abbrev pub next_line : Reader → Option Bytes
  next_line r = (readline trim tokens (past_header trim tokens r).input).0

  abbrev pub RowsFit : ℕ → Reader → Type 0
  RowsFit zero r = Unit {0}
  RowsFit (suc n) r =
      LineFits (past_header trim tokens r).headers (next_line r)
      × (((line : Bytes) → next_line r ≡ some line → RowsFit n (read_map trim tokens r).1))

  with_headers-some :
      (headers : Row) (ts : List Bytes) (m : RowMap)
      → length ts ≤ length headers
      → (out : RowMap) × (with_headers trim tokens headers ts m ≡ some out)
  with_headers-some headers [] m fit = (m, refl)
  with_headers-some [] (t ∷ ts) m fit = absurd (omega (arith, fit))
  with_headers-some (h ∷ hs) (t ∷ ts) m fit =
      with_headers-some hs ts (assign_field h t m) (omega (arith, fit))

  map_of-some :
      (headers : Row) (line : Option Bytes)
      → LineFits headers line
      → map_of trim tokens headers line ≢ none
  map_of-some headers none fit e = absurd (cc e)
  map_of-some headers (some line) fit e =
      let (out, is) = with_headers-some headers (tokens line) [] fit in
      absurd (cc (rw (map_of, is) at e))

  pub read_map-fits : (n : ℕ) (r : Reader) → RowsFit (suc n) r → (read_map trim tokens r).0 ≢ none
  unfolding read_map
  read_map-fits n r fit e = map_of-some _ _ fit.0 e

  pub RowsFit-next :
      (n : ℕ) (r : Reader) (row : RowMap)
      → (read_map trim tokens r).0 ≡ some (some row)
      → RowsFit (suc n) r
      → RowsFit n (read_map trim tokens r).1
  unfolding read_map
  RowsFit-next n r row e fit =
      let (l, line) = no_line (past_header trim tokens r).headers (next_line r) row e in
      fit.1 l line

-- The reader that the constructor makes.
abbrev pub fresh_reader : Bytes → Reader
fresh_reader file = record { input = file; headers = column_names; with_header = true }
