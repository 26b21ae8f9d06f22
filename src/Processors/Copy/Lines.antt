-- ===== src/Processors/Copy/Lines.antt =====
-- The lines of a file, and the file that they make.
use postboy.Prelude.{
  ℕ, ◌≡◌, refl, ap, ap₂, sym, ◌∙◌, ◌⊎◌, inl, inr, none, some, List, [], ◌∷◌, ◌++◌, append_assoc,
  ◌==◌, ==_iff, if◌then◌else◌, Bool-cases, Bytes,
}
use postboy.Csv.{split_line, getline}

List-cases : {A : Type 0} (xs : List A) → (xs ≡ []) ⊎ ((x : A) × (ys : List A) × (xs ≡ x ∷ ys))
List-cases [] = inl refl
List-cases (x ∷ xs) = inr (x, xs, refl)

abbrev pub onto_line : ℕ → List Bytes → List Bytes
onto_line c [] = (c ∷ []) ∷ []
onto_line c (l ∷ ls) = (c ∷ l) ∷ ls

abbrev pub lines : Bytes → List Bytes
lines [] = []
lines (c ∷ cs) = let later = lines cs in if c == 10 then [] ∷ later else onto_line c later

abbrev pub unlines : List Bytes → Bytes
unlines [] = []
unlines (l ∷ ls) = l ++ (10 ∷ unlines ls)

-- A file whose last line is ended.
abbrev pub ended : Bytes → Bytes
ended [] = []
ended (c ∷ []) = if c == 10 then c ∷ [] else c ∷ 10 ∷ []
ended (c ∷ d ∷ ds) = c ∷ ended (d ∷ ds)

unlines-onto_line :
    (c d : ℕ) (ds : Bytes) → unlines (onto_line c (lines (d ∷ ds))) ≡ c ∷ unlines (lines (d ∷ ds))
unlines-onto_line c d ds = onto (lines (d ∷ ds)) (some_line d ds)
  where
    some_line : (d : ℕ) (ds : Bytes) → (l : Bytes) × (ls : List Bytes) × (lines (d ∷ ds) ≡ l ∷ ls)
    some_line d ds = elim (Bool-cases (d == 10)) [
      | inl e ↦ ([], lines ds, rw e refl)
      | inr e ↦ elim (List-cases (lines ds)) [
        | inl z ↦ (d ∷ [], [], rw (e, z) refl)
        | inr (l, ls, z) ↦ (d ∷ l, ls, rw (e, z) refl)
      ]
    ]

    onto :
        (ls : List Bytes)
        → ((l : Bytes) × (ms : List Bytes) × (ls ≡ l ∷ ms))
        → unlines (onto_line c ls) ≡ c ∷ unlines ls
    onto [] (l, ms, e) = absurd (cc e)
    onto (m ∷ ls) h = refl

pub unlines-lines : (file : Bytes) → unlines (lines file) ≡ ended file
unlines-lines [] = refl
unlines-lines (c ∷ []) = elim (Bool-cases (c == 10)) [
  | inl e ↦ rw e (ap (λ t. t ∷ []) (sym ((==_iff c 10).0 e)))
  | inr e ↦ rw e refl
]
unlines-lines (c ∷ d ∷ ds) = elim (Bool-cases (c == 10)) [
  | inl e ↦ rw e (ap₂ (λ a b. a ∷ b) (sym ((==_iff c 10).0 e)) (unlines-lines (d ∷ ds)))
  | inr e ↦ rw e (unlines-onto_line c d ds ∙ ap (λ t. c ∷ t) (unlines-lines (d ∷ ds)))
]

-- What `std::getline` gives are the lines.
lines-split_line :
    (c : ℕ) (cs : Bytes) → lines (c ∷ cs) ≡ (split_line (c ∷ cs)).0 ∷ lines (split_line (c ∷ cs)).1
lines-split_line c [] = elim (Bool-cases (c == 10)) [ inl e ↦ rw e refl | inr e ↦ rw e refl ]
lines-split_line c (d ∷ ds) = elim (Bool-cases (c == 10)) [
  | inl e ↦ rw e refl
  | inr e ↦ rw e (ap (onto_line c) (lines-split_line d ds))
]

pub lines-getline :
    (file line rest : Bytes) → getline file ≡ some (line, rest) → lines file ≡ line ∷ lines rest
lines-getline [] line rest e = absurd (cc e)
lines-getline (c ∷ cs) line rest e =
    let f : split_line (c ∷ cs) ≡ (line, rest) = cc e in
    lines-split_line c cs ∙ ap (λ p. p.0 ∷ lines p.1) f

pub no_lines : (file : Bytes) → getline file ≡ none → lines file ≡ []
no_lines [] e = refl
no_lines (c ∷ cs) e = absurd (cc e)

pub unlines-append : (a b : List Bytes) → unlines (a ++ b) ≡ unlines a ++ unlines b
unlines-append [] b = refl
unlines-append (l ∷ a) b =
    ap (λ t. l ++ (10 ∷ t)) (unlines-append a b) ∙ sym (append_assoc l (10 ∷ unlines a) (unlines b))
