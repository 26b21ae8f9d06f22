-- ===== src/Csv/RoundTrip.antt =====
-- What a FileWriter wrote, a FileReader reads.
use postboy.Prelude.{
  ℕ, zero, suc, ◌<◌, ◌≡◌, ◌≢◌, refl, ap, sym, ◌∙◌, Option, none, some, List, [], ◌∷◌, ◌++◌,
  append-nil, append_assoc, arith, length, ◌==◌, true, false, Bytes,
}
use postboy.Csv.{
  Row, Reader, Writer, split_line, readline, read, write_fields, write_row, file_writer,
  file_reader,
}

-- Characters that are neither blank nor separators.
abbrev pub Plain : Bytes → Type 0
Plain [] = Unit {0}
Plain (c ∷ cs) = (32 < c) × (c ≢ 124) × Plain cs

abbrev pub PlainFields : Row → Type 0
PlainFields [] = Unit {0}
PlainFields (f ∷ fs) = (0 < length f) × Plain f × PlainFields fs

abbrev pub PlainRow : Row → Type 0
PlainRow row = (0 < length row) × PlainFields row

abbrev pub PlainRows : List Row → Type 0
PlainRows [] = Unit {0}
PlainRows (r ∷ rs) = PlainRow r × PlainRows rs

-- The fields with bars between them.
abbrev pub line_text : Row → Bytes
line_text [] = []
line_text (f ∷ fs) = f ++ write_fields 124 fs

abbrev pub Unblank : Bytes → Type 0
Unblank [] = Unit {0}
Unblank (c ∷ cs) = (32 < c) × Unblank cs

abbrev pub write_all : List Row → Option Writer → Option Writer
write_all [] w = w
write_all (r ∷ rs) none = none
write_all (r ∷ rs) (some w) = write_all rs (write_row r w)

-- The file's text.
abbrev pub text : List Row → Bytes
text [] = []
text (r ∷ rs) = line_text r ++ (10 ∷ text rs)

Unblank-append : (xs ys : Bytes) → Plain xs → Unblank ys → Unblank (xs ++ ys)
Unblank-append [] ys p u = u
Unblank-append (x ∷ xs) ys p u = (p.0, Unblank-append xs ys p.2 u)

Unblank-fields : (fs : Row) → PlainFields fs → Unblank (write_fields 124 fs)
Unblank-fields [] p = tt
Unblank-fields (f ∷ fs) p =
    (omega arith, Unblank-append f (write_fields 124 fs) p.1 (Unblank-fields fs p.2))

Unblank-line : (row : Row) → PlainRow row → Unblank (line_text row)
Unblank-line [] p = tt
Unblank-line (f ∷ fs) p = Unblank-append f (write_fields 124 fs) p.1.1 (Unblank-fields fs p.1.2)

split_line-line :
    (line rest : Bytes) → Unblank line → split_line (line ++ (10 ∷ rest)) ≡ (line, rest)
split_line-line [] rest u = refl
split_line-line (c ∷ cs) rest u =
    let inside : (c == 10) ≡ false = ground (arith, u.0) in
    rw (inside, split_line-line cs rest u.1) refl

written_row :
    (r : Row) (w : Writer)
    → PlainRow r
    → w.sep ≡ 124
    → write_row r w
      ≡ some (record {
        out = w.out ++ (line_text r ++ (10 ∷ []));
        sep = 124;
        writer_headers = w.writer_headers;
      })
unfolding write_row
written_row [] w p bar = absurd (omega (arith, p.0))
written_row (f ∷ fs) w p bar = rw (bar, append_assoc f (write_fields 124 fs) (10 ∷ [])) refl

written_rows :
    (rs : List Row) (w : Writer)
    → PlainRows rs
    → w.sep ≡ 124
    → write_all rs (some w)
      ≡ some (record { out = w.out ++ text rs; sep = 124; writer_headers = w.writer_headers })
written_rows [] w p bar = rw (append-nil w.out, sym bar) refl
written_rows (r ∷ rs) w p bar =
    let row = written_row r w p.0 bar in
    let next : Writer = record {
      out = w.out ++ (line_text r ++ (10 ∷ []));
      sep = 124;
      writer_headers = w.writer_headers;
    } in
    ap (write_all rs) row
    ∙ written_rows rs next p.1 refl
    ∙ ap (λ t. some (record { out = t; sep = 124; writer_headers = w.writer_headers }))
        (simp append_assoc)

abbrev with_text : Row → Bytes → Writer
with_text headers out = record { out = out; sep = 124; writer_headers = headers }

-- The rows of a reader, as many as asked for, and what one more call gives.
module _ (trim : Bytes → Bytes) (tokens : Bytes → List Bytes) where
  abbrev pub read_times : ℕ → Reader → List (Option Row)
  read_times zero r = []
  read_times (suc n) r = let (row, r') = read trim tokens r in row ∷ read_times n r'

abbrev pub all_there : List Row → List (Option Row)
all_there [] = none ∷ []
all_there (r ∷ rs) = some r ∷ all_there rs

module _ (trim : Bytes → Bytes) (tokens : Bytes → List Bytes)
    (trim_plain : (line : Bytes) → Unblank line → trim line ≡ line)
    (tokens_plain : (row : Row) → PlainRow row → tokens (line_text row) ≡ row) where
  readline-line :
      (row : Row) (rest : Bytes)
      → PlainRow row
      → readline trim tokens (line_text row ++ (10 ∷ rest)) ≡ (some (line_text row), rest)
  unfolding readline
  readline-line [] rest p = absurd (omega (arith, p.0))
  readline-line ([] ∷ fs) rest p = absurd (omega (arith, p.1.0))
  readline-line ((c ∷ cs) ∷ fs) rest p =
      let unblank = Unblank-line ((c ∷ cs) ∷ fs) p in
      let split = split_line-line (line_text ((c ∷ cs) ∷ fs)) rest unblank in
      let kept = trim_plain (line_text ((c ∷ cs) ∷ fs)) unblank in rw (split, kept) refl

  read_rows :
      (rs : List Row) (headers : Row)
      → PlainRows rs
      → read_times trim tokens (suc (length rs)) (file_reader (text rs) headers false)
        ≡ all_there rs
  unfolding read readline
  read_rows [] headers p = refl
  read_rows (r ∷ rs) headers p =
      let line = readline-line r (text rs) p.0 in
      let fields = tokens_plain r p.0 in
      rw (line, fields) (ap (λ t. some r ∷ t) (read_rows rs headers p.1))

  skipped :
      (header : Row) (rs : List Row) (headers : Row)
      → PlainRow header
      → read_times trim tokens (suc (length rs)) (file_reader (text (header ∷ rs)) headers true)
        ≡ read_times trim tokens (suc (length rs)) (file_reader (text rs) headers false)
  unfolding read
  skipped header rs headers p = let line = readline-line header (text rs) p in rw line refl

  -- Rows of fields that are not empty and have neither blanks nor bars, written behind their headers by a new
  -- FileWriter, come back from a FileReader that skips the headers: each Read gives the next row, and the one
  -- after the last gives none, where `trim` keeps lines without blanks and the tokenizer splits such a
  -- row's line at its bars.
  pub read_times-write_all :
      (headers : Row) (rs : List Row)
      → PlainRow headers
      → PlainRows rs
      → (w : Writer) × (write_all rs (file_writer headers) ≡ some w)
        × (read_times trim tokens (suc (length rs)) (file_reader w.out headers true) ≡ all_there rs)
  read_times-write_all headers rs plain_headers plain =
      let behind : read_times trim tokens (suc (length rs))
            (file_reader (text (headers ∷ rs)) headers true)
          ≡ read_times trim tokens (suc (length rs)) (file_reader (text rs) headers false) =
        skipped headers rs headers plain_headers in
      let first : file_writer headers ≡ some (with_text headers (text (headers ∷ []))) =
        written_row headers (with_text headers []) plain_headers refl in
      let rest = written_rows rs (with_text headers (text (headers ∷ []))) plain refl in
      (
        with_text headers (text (headers ∷ rs)),
        ap (write_all rs) first ∙ rest ∙ ap (λ t. some (with_text headers t)) (simp append_assoc),
        behind ∙ read_rows rs headers plain,
      )
