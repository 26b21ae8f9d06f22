-- ===== src/Prometheus/Names.antt =====
-- src/postboy/prometheus_metrics/check_names.cpp: which names a metric and a label may have.
use postboy.Prelude.{
  ℕ, ◌≤◌, ◌≡◌, ◌≢◌, refl, sym, subst, ◌∙◌, ◌↔◌, ◌⊎◌, inl, inr, [], ◌∷◌, arith, leb, ◌==◌,
  if◌then◌else◌, Bool, true, false, not, ◌&&◌, ◌||◌, Bool-cases, Bytes,
}

pub data MetricType : Type 0 where
  unexpected counter gauge histogram : MetricType

abbrev is_locale_independent_alpha_numeric : ℕ → Bool
is_locale_independent_alpha_numeric c =
    (leb b'0' c && leb c b'9') || ((leb b'a' c && leb c b'z') || (leb b'A' c && leb c b'Z'))

abbrev is_locale_independent_digit : ℕ → Bool
is_locale_independent_digit c = leb b'0' c && leb c b'9'

-- `name.compare(0, 2, "__") == 0`: the first two bytes, or what there is, against "__".
starts_with_two_underscores : Bytes → Bool
starts_with_two_underscores (a ∷ b ∷ rest) = a == b'_' && b == b'_'
starts_with_two_underscores _ = false

unfoldable pub name_starts_valid : Bytes → Bool
unfolding starts_with_two_underscores
name_starts_valid [] = false
name_starts_valid (c ∷ cs) =
    if is_locale_independent_digit c then false else not (starts_with_two_underscores (c ∷ cs))

-- `find_if_not`: the rest of the name from the first character that fails.
find_if_not : (ℕ → Bool) → Bytes → Bytes
find_if_not good [] = []
find_if_not good (c ∷ cs) = let rest = find_if_not good cs in if good c then rest else c ∷ cs

at_end : Bytes → Bool
at_end [] = true
at_end (c ∷ cs) = false

abbrev pub valid_metric_character : ℕ → Bool
valid_metric_character c = is_locale_independent_alpha_numeric c || (c == b'_' || c == b':')

abbrev pub valid_label_character : ℕ → Bool
valid_label_character c = is_locale_independent_alpha_numeric c || c == b'_'

unfoldable pub check_metric_name : Bytes → Bool
unfolding find_if_not at_end name_starts_valid
check_metric_name name =
    if not (name_starts_valid name) then false else at_end (find_if_not valid_metric_character name)

abbrev is_unexpected : MetricType → Bool
is_unexpected unexpected = true
is_unexpected _ = false

unfoldable pub check_label_name : Bytes → MetricType → Bool
unfolding find_if_not at_end name_starts_valid
check_label_name name type =
    if not (name_starts_valid name)
    then false
    else if is_unexpected type
    then false
    else at_end (find_if_not valid_label_character name)

-- Every byte of a name passes.
abbrev pub All : (ℕ → Type 0) → Bytes → Type 0
All P [] = Unit {0}
All P (c ∷ cs) = P c × All P cs

abbrev pub IsDigit : ℕ → Type 0
IsDigit c = (b'0' ≤ c) × (c ≤ b'9')

abbrev pub IsAlphaNumeric : ℕ → Type 0
IsAlphaNumeric c = IsDigit c ⊎ (((b'a' ≤ c) × (c ≤ b'z')) ⊎ ((b'A' ≤ c) × (c ≤ b'Z')))

abbrev pub IsMetricCharacter : ℕ → Type 0
IsMetricCharacter c = IsAlphaNumeric c ⊎ ((c ≡ b'_') ⊎ (c ≡ b':'))

abbrev pub IsLabelCharacter : ℕ → Type 0
IsLabelCharacter c = IsAlphaNumeric c ⊎ (c ≡ b'_')

-- The rule for the start of a name: it has one, which is no digit and not "__".
abbrev pub StartsWell : Bytes → Type 0
StartsWell [] = ⊥
StartsWell (a ∷ []) = ¬ IsDigit a
StartsWell (a ∷ b ∷ rest) = (¬ IsDigit a) × ((a ≢ b'_') ⊎ (b ≢ b'_'))

name_starts_valid_iff : (name : Bytes) → (name_starts_valid name ≡ true) ↔ StartsWell name
unfolding name_starts_valid
name_starts_valid_iff [] = (λ h. cc h, λ h. absurd h)
name_starts_valid_iff (a ∷ []) = (λ h. ground arith, λ h. ground arith)
name_starts_valid_iff (a ∷ b ∷ rest) = (λ h. (ground arith, ground arith), λ h. ground arith)

module _ (good : ℕ → Bool) (Good : ℕ → Type 0) (decides : (c : ℕ) → (good c ≡ true) ↔ Good c) where
  find_if_not_iff : (name : Bytes) → (at_end (find_if_not good name) ≡ true) ↔ All Good name
  unfolding find_if_not at_end
  find_if_not_iff [] = (λ h. tt, λ h. refl)
  find_if_not_iff (c ∷ cs) = elim (Bool-cases (good c)) [
    | inl e ↦
        rw e ((λ h. ((decides c).0 e, (find_if_not_iff cs).0 h)), (λ h. (find_if_not_iff cs).1 h.1))
    | inr e ↦ rw e ((λ h. cc h), (λ h. cc (sym e ∙ (decides c).1 h.0)))
  ]

valid_metric_character_iff : (c : ℕ) → (valid_metric_character c ≡ true) ↔ IsMetricCharacter c
valid_metric_character_iff c = (λ h. ground arith, λ h. ground arith)

valid_label_character_iff : (c : ℕ) → (valid_label_character c ≡ true) ↔ IsLabelCharacter c
valid_label_character_iff c = (λ h. ground arith, λ h. ground arith)

both_tests : (a b : Bool) → (if not a then false else b) ≡ true → (a ≡ true) × (b ≡ true)
both_tests a b h = ground arith

-- `CheckMetricName` accepts exactly the names that start well and hold letters, digits, '_' and ':'.
check_metric_name_iff :
    (name : Bytes)
    → (check_metric_name name ≡ true) ↔ (StartsWell name × All IsMetricCharacter name)
unfolding check_metric_name
check_metric_name_iff name = (forth, back)
  where
    forth : check_metric_name name ≡ true → StartsWell name × All IsMetricCharacter name
    forth h =
        let (a, b) =
          both_tests (name_starts_valid name) (at_end (find_if_not valid_metric_character name))
            h in
        (
          (name_starts_valid_iff name).0 a,
          (find_if_not_iff valid_metric_character IsMetricCharacter valid_metric_character_iff
                name).0
              b,
        )

    back : StartsWell name × All IsMetricCharacter name → check_metric_name name ≡ true
    back h = rw ((name_starts_valid_iff name).1 h.0) (
        (find_if_not_iff valid_metric_character IsMetricCharacter valid_metric_character_iff name).1
          h.1)

-- `CheckLabelName` accepts exactly the names that start well and hold letters, digits and '_', and
-- none for the unexpected metric type.
check_label_name_iff :
    (name : Bytes) (type : MetricType)
    → (check_label_name name type ≡ true)
      ↔ ((type ≢ unexpected) × StartsWell name × All IsLabelCharacter name)
unfolding check_label_name
check_label_name_iff name type = (forth type, back type)
  where
    forth :
        (type : MetricType)
        → check_label_name name type ≡ true
        → (type ≢ unexpected) × StartsWell name × All IsLabelCharacter name
    forth type h =
        let (a, b) = both_tests (name_starts_valid name) _ h in
        (
          (λ e. cc (
              subst
                (λ t.
                  (if is_unexpected t
                    then false
                    else at_end (find_if_not valid_label_character name))
                  ≡ true)
                e b)),
          (name_starts_valid_iff name).0 a,
          (find_if_not_iff valid_label_character IsLabelCharacter valid_label_character_iff name).0
              (ground (arith, b)),
        )

    back :
        (type : MetricType)
        → (type ≢ unexpected) × StartsWell name × All IsLabelCharacter name
        → check_label_name name type ≡ true
    back unexpected h = absurd (h.0 refl)
    back _ h = rw ((name_starts_valid_iff name).1 h.1) (
        (find_if_not_iff valid_label_character IsLabelCharacter valid_label_character_iff name).1
          h.2)
