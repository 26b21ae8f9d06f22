-- ===== src/Prometheus/FamilyLabels.antt =====
-- The label sets of a family stay different, valid, and apart from its constant labels.
use postboy.Prelude.{
  ℕ, ◌≡◌, refl, ◌∙◌, inl, inr, none, some, List, [], ◌∷◌, ◌++◌, arith, ◌==◌, true, false, ◌||◌,
  Bool-cases, Bytes, bytes_eq, bytes_eq_refl, OnSome, result_of, Option, ◌≢◌, ap, sym, subst,
  update_at, update_at-cases,
}
use postboy.Prometheus.Names.{MetricType, check_metric_name}
use postboy.Prometheus.Family.{
  Labels, labels_eq, label_names_valid, labels_fit, Entry, Family, find_labels, erase_metric,
  construct, has, push_metric, remove,
}

module _ {T : Type 0} where
  -- Different label sets, each fitting the constant labels.
  abbrev pub Entries : MetricType → Labels → List (Entry T) → Type 0
  Entries type constant [] = Unit {0}
  Entries type constant (e ∷ es) =
      (find_labels e.labels es ≡ false)
      × (labels_fit type constant e.labels ≡ true)
      × Entries type constant es

  abbrev pub WellFormed : MetricType → Family T → Type 0
  WellFormed type f =
      (check_metric_name f.name ≡ true)
      × (label_names_valid type f.constant_labels ≡ true)
      × Entries type f.constant_labels f.metrics

-- A family, and the labels of each thread that is in `Add` behind its call of `Has`.
pub record Shared (T : Type 0) : Type 0 where
  pub family : Family T
  pub adding : ℕ → Option Labels

pub bytes_eq_comm : (xs ys : Bytes) → bytes_eq xs ys ≡ bytes_eq ys xs
unfolding bytes_eq
bytes_eq_comm [] [] = refl
bytes_eq_comm [] (y ∷ ys) = refl
bytes_eq_comm (x ∷ xs) [] = refl
bytes_eq_comm (x ∷ xs) (y ∷ ys) = ground (arith, bytes_eq_comm xs ys)

labels_eq_comm : (ls ms : Labels) → labels_eq ls ms ≡ labels_eq ms ls
unfolding labels_eq
labels_eq_comm [] [] = refl
labels_eq_comm [] (m ∷ ms) = refl
labels_eq_comm (l ∷ ls) [] = refl
labels_eq_comm (l ∷ ls) (m ∷ ms) =
    rw (bytes_eq_comm l.name m.name, bytes_eq_comm l.value m.value, labels_eq_comm ls ms) refl

labels_eq_refl : (ls : Labels) → labels_eq ls ls ≡ true
unfolding labels_eq
labels_eq_refl [] = refl
labels_eq_refl (l ∷ ls) = rw (bytes_eq_refl l.name, bytes_eq_refl l.value, labels_eq_refl ls) refl

construct-WellFormed :
    (T : Type 0) (type : MetricType) (name help : Bytes) (constant : Labels)
    → OnSome (WellFormed type) (construct {T = T} type name help constant)
unfolding construct
construct-WellFormed T type name help constant = elim (Bool-cases (check_metric_name name)) [
  | inr q ↦ rw q tt
  | inl q ↦ elim (Bool-cases (label_names_valid type constant)) [
    | inr v ↦ rw (q, v) tt
    | inl v ↦ rw (q, v) (q, v, tt)
  ]
]

module _ {T : Type 0} where
  find_labels-append :
      (labels : Labels) (es : List (Entry T)) (e : Entry T)
      → find_labels labels (es ++ (e ∷ [])) ≡ (find_labels labels es || labels_eq e.labels labels)
  find_labels-append labels [] e = ground arith
  find_labels-append labels (d ∷ es) e = ground (arith, find_labels-append labels es e)

  Entries-append :
      (type : MetricType) (constant : Labels) (es : List (Entry T)) (e : Entry T)
      → Entries type constant es
      → find_labels e.labels es ≡ false
      → labels_fit type constant e.labels ≡ true
      → Entries type constant (es ++ (e ∷ []))
  Entries-append type constant [] e h fresh fit = (refl, fit, tt)
  Entries-append type constant (d ∷ es) e h fresh fit =
      let apart = find_labels-append d.labels es e in
      let comm = labels_eq_comm d.labels e.labels in
      (ground arith, h.1, Entries-append type constant es e h.2 (ground arith) fit)

  find_labels-erase :
      (labels : Labels) (address : ℕ) (es : List (Entry T))
      → find_labels labels es ≡ false
      → find_labels labels (erase_metric address es) ≡ false
  find_labels-erase labels address [] h = refl
  find_labels-erase labels address (e ∷ es) h =
      let rest = find_labels-erase labels address es (ground arith) in ground arith

  Entries-erase :
      (type : MetricType) (constant : Labels) (address : ℕ) (es : List (Entry T))
      → Entries type constant es
      → Entries type constant (erase_metric address es)
  Entries-erase type constant address [] h = tt
  Entries-erase type constant address (e ∷ es) h = elim (Bool-cases (e.address == address)) [
    | inl q ↦ rw q h.2
    | inr q ↦
        rw q (
          find_labels-erase e.labels address es h.0,
          h.1,
          Entries-erase type constant address es h.2,
        )
  ]

  -- No thread is adding these labels.
  abbrev pub NobodyAdds : Shared T → Labels → Type 0
  NobodyAdds s labels =
      (j : ℕ) (others : Labels) → s.adding j ≡ some others → labels_eq labels others ≡ false

  -- What any threads can make of a family, while no two are adding the same labels: `Has` and the rest of `Add`
  -- take the lock each for itself.
  pub data Reachable (type : MetricType) : Shared T → Type 0 where
    constructed :
        (name help : Bytes) (constant : Labels) {f : Family T}
        → construct type name help constant ≡ some f
        → Reachable type (record { family = f; adding = λ _. none })
    verified :
        {s : Shared T} (i : ℕ) (labels : Labels)
        → Reachable type s
        → s.adding i ≡ none
        → has s.family labels ≡ false
        → NobodyAdds s labels
        → Reachable type (record s { adding = update_at s.adding i (some labels) })
    pushed :
        {s : Shared T} {g : Family T} (i : ℕ) (labels : Labels) (address : ℕ) (metric : T)
        → Reachable type s
        → s.adding i ≡ some labels
        → push_metric type s.family labels address metric ≡ some g
        → Reachable type (record { family = g; adding = update_at s.adding i none })
    removed :
        {s : Shared T} (address : ℕ)
        → Reachable type s
        → Reachable type (record s { family = remove s.family address })

  record Apart (type : MetricType) (s : Shared T) : Type 0 where
    formed : WellFormed type s.family
    absent :
        (i : ℕ) (labels : Labels)
        → s.adding i ≡ some labels
        → find_labels labels s.family.metrics ≡ false
    different :
        (i j : ℕ) (labels others : Labels)
        → i ≢ j
        → s.adding i ≡ some labels
        → s.adding j ≡ some others
        → labels_eq labels others ≡ false

  push_metric-some :
      (type : MetricType) (f g : Family T) (labels : Labels) (address : ℕ) (metric : T)
      → push_metric type f labels address metric ≡ some g
      → WellFormed type f
      → find_labels labels f.metrics ≡ false
      → WellFormed type g
        × (g.metrics
            ≡ f.metrics ++ (record { labels = labels; address = address; metric = metric } ∷ []))
  unfolding push_metric
  push_metric-some type f g labels address metric e w q =
      elim (Bool-cases (labels_fit type f.constant_labels labels)) [
        | inr v ↦ absurd (cc (rw v at e))
        | inl v ↦
            let d : Entry T = record { labels = labels; address = address; metric = metric } in
            let made : Family T = record {
              name = f.name;
              help = f.help;
              constant_labels = f.constant_labels;
              metrics = f.metrics ++ (d ∷ []);
            } in
            let same : made ≡ g = cc (rw v at e) in
            subst (λ t. WellFormed type t × (t.metrics ≡ f.metrics ++ (d ∷ []))) same
              ((w.0, w.1, Entries-append type f.constant_labels f.metrics d w.2 q v), refl)
      ]

  Reachable-Apart : (type : MetricType) (s : Shared T) → Reachable type s → Apart type s
  unfolding remove has
  Reachable-Apart type s (constructed name help constant {f = f} h) = record {
    formed = result_of (WellFormed type) _ f (construct-WellFormed T type name help constant) h;
    absent = λ i labels e. absurd (cc e);
    different = λ i j labels others ne e g. absurd (cc e);
  }
  Reachable-Apart type t (verified {s = s} i labels r free fresh alone) =
      let v = Reachable-Apart type s r in
      record {
        formed = v.formed;
        absent = λ j ls e. elim (update_at-cases s.adding i (some labels) j) [
          | inl (_, now) ↦
              let same : labels ≡ ls = cc (now, e) in
              subst (λ m. find_labels m s.family.metrics ≡ false) same fresh
          | inr (_, now) ↦ v.absent j ls (sym now ∙ e)
        ];
        different = λ j k ls ms ne e g. elim (update_at-cases s.adding i (some labels) j) [
          | inl (at_j, now) ↦ elim (update_at-cases s.adding i (some labels) k) [
            | inl (at_k, _) ↦ absurd (ne (sym at_j ∙ at_k))
            | inr (_, held) ↦
                let same : labels ≡ ls = cc (now, e) in
                subst (λ m. labels_eq m ms ≡ false) same (alone k ms (sym held ∙ g))
          ]
          | inr (_, now) ↦ elim (update_at-cases s.adding i (some labels) k) [
            | inl (_, held) ↦
                let same : labels ≡ ms = cc (held, g) in
                subst (λ m. labels_eq ls m ≡ false) same
                  (labels_eq_comm ls labels ∙ alone j ls (sym now ∙ e))
            | inr (_, held) ↦ v.different j k ls ms ne (sym now ∙ e) (sym held ∙ g)
          ]
        ];
      }
  Reachable-Apart type t (pushed {s = s} {g = g} i labels address metric r mine h) =
      let v = Reachable-Apart type s r in
      let (w, is) =
        push_metric-some type s.family g labels address metric h v.formed
          (v.absent i labels mine) in
      record {
        formed = w;
        absent = λ j ls e. elim (update_at-cases s.adding i none j) [
          | inl (_, now) ↦ absurd (cc (now, e))
          | inr (ne, now) ↦
              let old = v.absent j ls (sym now ∙ e) in
              let apart = v.different i j labels ls ne mine (sym now ∙ e) in
              ap (find_labels ls) is
              ∙ find_labels-append ls s.family.metrics
                  (record { labels = labels; address = address; metric = metric })
              ∙ rw (old, apart) refl
        ];
        different = λ j k ls ms ne e f. elim (update_at-cases s.adding i none j) [
          | inl (_, now) ↦ absurd (cc (now, e))
          | inr (_, now) ↦ elim (update_at-cases s.adding i none k) [
            | inl (_, held) ↦ absurd (cc (held, f))
            | inr (_, held) ↦ v.different j k ls ms ne (sym now ∙ e) (sym held ∙ f)
          ]
        ];
      }
  Reachable-Apart type t (removed {s = s} address r) =
      let v = Reachable-Apart type s r in
      let w = v.formed in
      record {
        formed =
            (w.0, w.1, Entries-erase type s.family.constant_labels address s.family.metrics w.2);
        absent =
            λ i labels e. find_labels-erase labels address s.family.metrics (v.absent i labels e);
        different = v.different;
      }

  -- Whatever metrics any threads added and removed, in any order of their calls of Has and of the rest of Add, while
  -- no two were adding the same labels at once: a family's name and constant labels are valid, its label sets are
  -- pairwise different, and each has valid names, none of them a constant label's.
  pub Reachable-WellFormed :
      (type : MetricType) (s : Shared T) → Reachable type s → WellFormed type s.family
  Reachable-WellFormed type s r = (Reachable-Apart type s r).formed
