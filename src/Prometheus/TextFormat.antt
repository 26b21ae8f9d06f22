-- ===== src/Prometheus/TextFormat.antt =====
-- The text form can be read back: label values, label sets, histogram buckets.
use postboy.Prelude.{
  ℕ, zero, suc, ◌≡◌, refl, ap, ◌∙◌, inl, inr, Option, none, some, List, [], ◌∷◌, ◌++◌, append_assoc,
  arith, length, ◌==◌, ==_iff, if◌then◌else◌, Bool, true, false, not, ◌&&◌, Bool-cases, Bytes,
}
use postboy.Prometheus.Text.{Label, write_string, write_pair, write_labels}

-- A reader of the exposition format: a quoted value up to its closing quote.
abbrev unescape : ℕ → ℕ
unescape c = if c == b'n' then 10 else c

abbrev push_byte : ℕ → Option (Bytes × Bytes) → Option (Bytes × Bytes)
push_byte c none = none
push_byte c (some (v, rest)) = some (c ∷ v, rest)

-- `escaped`: the byte before was a backslash.
pub read_quoted_from : Bool → Bytes → Option (Bytes × Bytes)
read_quoted_from escaped [] = none
read_quoted_from true (c ∷ rest) = push_byte (unescape c) (read_quoted_from false rest)
read_quoted_from false (c ∷ rest) =
    let after_escape = read_quoted_from true rest in
    let after_plain = read_quoted_from false rest in
    if c == 34 then some ([], rest) else if c == 92 then after_escape else push_byte c after_plain

pub read_quoted : Bytes → Option (Bytes × Bytes)
read_quoted = read_quoted_from false

-- One byte of the value, read back; the rest of the value is read by hypothesis.
read_quoted-cons :
    (c : ℕ) (cs rest : Bytes)
    → read_quoted (write_string cs ++ (34 ∷ rest)) ≡ some (cs, rest)
    → read_quoted (write_string (c ∷ cs) ++ (34 ∷ rest)) ≡ some (c ∷ cs, rest)
unfolding read_quoted read_quoted_from write_string
read_quoted-cons c cs rest hyp = elim (Bool-cases (c == 10)) [
  | inl e ↦ let c_eq = (==_iff c 10).0 e in rw (e, hyp, c_eq) refl
  | inr e ↦ elim (Bool-cases (c == 92)) [
    | inl e' ↦ let c_eq = (==_iff c 92).0 e' in rw (e, e', hyp, c_eq) refl
    | inr e' ↦ elim (Bool-cases (c == 34)) [
      | inl q ↦ let c_eq = (==_iff c 34).0 q in rw (e, e', q, c_eq, hyp) refl
      | inr q ↦ rw (e, e', q, hyp) (rw (q, e') refl)
    ]
  ]
]

-- Reading what `WriteValue` wrote of a string, up to the quote behind it, gives the string back.
read_quoted-write_string :
    (value rest : Bytes) → read_quoted (write_string value ++ (34 ∷ rest)) ≡ some (value, rest)
unfolding read_quoted read_quoted_from write_string
read_quoted-write_string [] rest = refl
read_quoted-write_string (c ∷ cs) rest =
    read_quoted-cons c cs rest (read_quoted-write_string cs rest)

-- A label's name, up to the equals sign and the quote behind it.
pub read_name : Bytes → Option (Bytes × Bytes)
read_name [] = none
read_name (a ∷ []) = none
read_name (a ∷ b ∷ rest) =
    let after_one = read_name (b ∷ rest) in
    if a == b'=' then some ([], rest) else push_byte a after_one

abbrev label_with : Bytes → Option (Bytes × Bytes) → Option (Label × Bytes)
label_with name none = none
label_with name (some (value, rest)) = some (record { name = name; value = value }, rest)

abbrev value_of_name : Option (Bytes × Bytes) → Option (Label × Bytes)
value_of_name none = none
value_of_name (some (name, rest)) = label_with name (read_quoted rest)

abbrev add_label : Label → Option (List Label × Bytes) → Option (List Label × Bytes)
add_label l none = none
add_label l (some (ls, rest)) = some (l ∷ ls, rest)

-- What stands behind a label: a comma and more labels, or the closing brace.
abbrev more_labels :
    (Bytes → Option (List Label × Bytes)) → Option (Label × Bytes) → Option (List Label × Bytes)
more_labels read none = none
more_labels read (some (l, [])) = none
more_labels read (some (l, c ∷ rest)) =
    if c == b',' then add_label l (read rest) else if c == b'}' then some (l ∷ [], rest) else none

-- A label set up to its closing brace, of at most `fuel` labels.
pub read_labels : ℕ → Bytes → Option (List Label × Bytes)
read_labels zero bytes = none
read_labels (suc fuel) bytes = more_labels (read_labels fuel) (value_of_name (read_name bytes))

abbrev has_no_equals : Bytes → Bool
has_no_equals [] = true
has_no_equals (c ∷ cs) = not (c == b'=') && has_no_equals cs

abbrev pub names_readable : List Label → Bool
names_readable [] = true
names_readable (l ∷ ls) = has_no_equals l.name && names_readable ls

pub read_name-append :
    (name rest : Bytes)
    → has_no_equals name ≡ true
    → read_name (name ++ (b'=' ∷ 34 ∷ rest)) ≡ some (name, rest)
unfolding read_name
read_name-append [] rest h = refl
read_name-append (c ∷ []) rest h = ground arith
read_name-append (c ∷ d ∷ cs) rest h =
    let hyp = read_name-append (d ∷ cs) rest (ground arith) in
    let e : (c == b'=') ≡ false = ground arith in rw (e, hyp) refl

write_pair-append :
    (name value rest : Bytes)
    → write_pair name value ++ rest ≡ name ++ (b'=' ∷ 34 ∷ (value ++ (34 ∷ rest)))
unfolding write_pair
write_pair-append name value rest = rw (append_assoc, append_assoc) refl

label_back :
    (l : Label) (rest : Bytes)
    → has_no_equals l.name ≡ true
    → value_of_name (read_name (write_pair l.name (write_string l.value) ++ rest)) ≡ some (l, rest)
label_back l rest h =
    rw
      (
        write_pair-append l.name (write_string l.value) rest,
        read_name-append l.name (write_string l.value ++ (34 ∷ rest)) h,
        read_quoted-write_string l.value rest,
      )
      refl

read_labels-comma :
    (fuel : ℕ) (l : Label) (more : Bytes)
    → has_no_equals l.name ≡ true
    → read_labels (suc fuel) (write_pair l.name (write_string l.value) ++ (b',' ∷ more))
      ≡ add_label l (read_labels fuel more)
unfolding read_labels
read_labels-comma fuel l more h = rw (label_back l (b',' ∷ more) h) refl

-- Reading a nonempty label set back, as `WriteHead` wrote it, gives the same labels and stops behind
-- the brace, when no label's name has an equals sign in it.
pub read_labels-write_labels :
    (l : Label) (ls : List Label) (rest : Bytes)
    → names_readable (l ∷ ls) ≡ true
    → read_labels (length (l ∷ ls)) (write_labels [] (l ∷ ls) ++ (b'}' ∷ rest))
      ≡ some (l ∷ ls, rest)
unfolding read_labels write_labels
read_labels-write_labels l [] rest h =
    let step = append_assoc (write_pair l.name (write_string l.value)) [] (b'}' ∷ rest) in
    rw (step, label_back l (b'}' ∷ rest) (ground arith)) refl
read_labels-write_labels l (m ∷ ls) rest h =
    let pair = write_pair l.name (write_string l.value) in
    let more = write_labels [] (m ∷ ls) in
    ap (read_labels (suc (length (m ∷ ls)))) (append_assoc pair (b',' ∷ more) (b'}' ∷ rest))
    ∙ (read_labels-comma (length (m ∷ ls)) l (more ++ (b'}' ∷ rest)) (ground arith)
        ∙ ap (add_label l) (read_labels-write_labels m ls rest (ground arith)))
