-- ===== src/Csv/Tests.antt =====
-- Two rows of a file, with a tokenizer that splits at every bar.
use postboy.Prelude.{
  ℕ, ◌≡◌, refl, ap, ◌∙◌, some, List, [], ◌∷◌, ◌++◌, append-nil, arith, ◌==◌, if◌then◌else◌, true,
  false, Bytes, codes,
}
use postboy.Csv.{Row, Writer, write_fields, file_writer, file_reader}
use postboy.Csv.RoundTrip.{
  Plain, PlainFields, PlainRow, line_text, Unblank, write_all, read_times, all_there,
  read_times-write_all,
}

abbrev onto_first : ℕ → List Bytes → List Bytes
onto_first c [] = (c ∷ []) ∷ []
onto_first c (f ∷ fs) = (c ∷ f) ∷ fs

abbrev at_bars : Bytes → List Bytes
at_bars [] = [] ∷ []
at_bars (c ∷ cs) = let later = at_bars cs in if c == 124 then [] ∷ later else onto_first c later

at_bars-field :
    (f rest g : Bytes) (fs : List Bytes)
    → Plain f
    → at_bars rest ≡ g ∷ fs
    → at_bars (f ++ rest) ≡ (f ++ g) ∷ fs
at_bars-field [] rest g fs p e = e
at_bars-field (c ∷ cs) rest g fs p e =
    let inside : (c == 124) ≡ false = ground (arith, p.1) in
    rw (inside, at_bars-field cs rest g fs p.2 e) refl

at_bars-fields : (fs : Row) → PlainFields fs → at_bars (write_fields 124 fs) ≡ [] ∷ fs
at_bars-fields [] p = refl
at_bars-fields (f ∷ fs) p =
    let one = at_bars-field f (write_fields 124 fs) [] fs p.1 (at_bars-fields fs p.2) in
    ap (λ t. [] ∷ t) (one ∙ ap (λ t. t ∷ fs) (append-nil f))

at_bars-line : (row : Row) → PlainRow row → at_bars (line_text row) ≡ row
at_bars-line [] p = absurd (omega (arith, p.0))
at_bars-line (f ∷ fs) p =
    at_bars-field f (write_fields 124 fs) [] fs p.1.1 (at_bars-fields fs p.1.2)
    ∙ ap (λ t. t ∷ fs) (append-nil f)

unchanged : (line : Bytes) → Unblank line → line ≡ line
unchanged line u = refl

abbrev headers : Row
headers = codes "id" ∷ codes "px" ∷ []

abbrev rows : List Row
rows = (codes "1" ∷ codes "20" ∷ []) ∷ (codes "2" ∷ codes "7" ∷ []) ∷ []

headers_plain : PlainRow headers
headers_plain = ground arith

read_times-write_all_example :
    (w : Writer) × (write_all rows (file_writer headers) ≡ some w)
    × (read_times (λ l. l) at_bars 3 (file_reader w.out headers true) ≡ all_there rows)
read_times-write_all_example =
    read_times-write_all (λ l. l) at_bars unchanged at_bars-line headers rows headers_plain
      (ground arith)
