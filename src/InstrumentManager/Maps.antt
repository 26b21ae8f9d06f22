-- ===== src/InstrumentManager/Maps.antt =====
-- What a map gives after an emplacement.
use postboy.Prelude.{
  ◌≡◌, refl, sym, ◌∙◌, ◌⊎◌, inl, inr, none, some, List, [], ◌∷◌, ◌++◌, if◌then◌else◌, Bool, true,
  Bool-cases, Option-cases,
}
use postboy.InstrumentManager.{find, emplace}

module _ {K V : Type 0} (same : K → K → Bool) where
  find-append_some :
      (k : K) (es fs : List (K × V)) (x : V)
      → find same k es ≡ some x
      → find same k (es ++ fs) ≡ some x
  unfolding find
  find-append_some k [] fs x e = absurd (cc e)
  find-append_some k (d ∷ es) fs x e = elim (Bool-cases (same d.0 k)) [
    | inl h ↦ rw h (rw h at e)
    | inr h ↦ rw h (find-append_some k es fs x (rw h at e))
  ]

  find-append_none :
      (k j : K) (es : List (K × V)) (v : V)
      → find same k es ≡ none
      → find same k (es ++ ((j, v) ∷ [])) ≡ (if same j k then some v else none)
  unfolding find
  find-append_none k j [] v e = refl
  find-append_none k j (d ∷ es) v e = elim (Bool-cases (same d.0 k)) [
    | inl h ↦ absurd (cc (rw h at e))
    | inr h ↦ rw h (find-append_none k j es v (rw h at e))
  ]

  pub find-emplace_old :
      (k j : K) (v : V) (es : List (K × V)) (x : V)
      → find same k es ≡ some x
      → find same k (emplace same j v es) ≡ some x
  unfolding emplace
  find-emplace_old k j v es x e = elim (Option-cases (find same j es)) [
    | inl absent ↦ rw absent (find-append_some k es ((j, v) ∷ []) x e)
    | inr (y, there) ↦ rw there e
  ]

  pub find-emplace_self :
      (j : K) (v : V) (es : List (K × V))
      → same j j ≡ true
      → (y : V) × (find same j (emplace same j v es) ≡ some y)
  unfolding emplace
  find-emplace_self j v es refl_j = elim (Option-cases (find same j es)) [
    | inl absent ↦ (v, rw absent (find-append_none j j es v absent ∙ rw refl_j refl))
    | inr (y, there) ↦ (y, rw there there)
  ]

  appended :
      (k j : K) (v x : V)
      → (if same j k then some v else none) ≡ some x
      → (same j k ≡ true) × (x ≡ v)
  appended k j v x e = elim (Bool-cases (same j k)) [
    | inl h ↦ (h, let f : some v ≡ some x = rw h at e in cc f)
    | inr h ↦ let f : none ≡ some x = rw h at e in absurd (cc f)
  ]

  pub find-emplace_cases :
      (k j : K) (v : V) (es : List (K × V)) (x : V)
      → find same k (emplace same j v es) ≡ some x
      → (find same k es ≡ some x) ⊎ ((same j k ≡ true) × (x ≡ v))
  unfolding emplace
  find-emplace_cases k j v es x e = elim (Option-cases (find same j es)) [
    | inr (y, there) ↦ inl (rw there at e)
    | inl absent ↦
        let f : find same k (es ++ ((j, v) ∷ [])) ≡ some x = rw absent at e in
        elim (Option-cases (find same k es)) [
          | inr (z, was) ↦ inl (was ∙ sym (find-append_some k es ((j, v) ∷ []) z was) ∙ f)
          | inl new ↦ inr (appended k j v x (sym (find-append_none k j es v new) ∙ f))
        ]
  ]
