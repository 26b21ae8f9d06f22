-- ===== src/Prometheus/RegistryNames.antt =====
-- Which names the families of a registry can share.
use postboy.Prelude.{
  ℕ, ◌≡◌, refl, sym, subst, ◌∙◌, ◌⊎◌, inl, inr, Option, none, some, List, [], ◌∷◌, ◌++◌, arith,
  ◌==◌, Bool, true, false, ◌||◌, Bool-cases, Bytes, bytes_eq, bytes_eq→eq, bytes_eq_refl, OnSome,
  result_of,
}
use postboy.Prometheus.Names.{MetricType, counter, gauge, histogram, check_metric_name}
use postboy.Prometheus.Family.{Labels, Family, label_names_valid, construct}
use postboy.Prometheus.FamilyLabels.{bytes_eq_comm}
use postboy.Prometheus.Registry.{
  Held, Registry, with_counters, with_gauges, with_histograms, family_name_exists, erase_family,
  add_to, add_counter, add_gauge, add_histogram, remove_counter, remove_gauge, remove_histogram,
  empty_registry,
}

module _ {T : Type 0} where
  -- No two families of the list have one name.
  abbrev pub UniqueNames : List (Held T) → Type 0
  UniqueNames [] = Unit {0}
  UniqueNames (h ∷ hs) = (family_name_exists h.family.name hs ≡ false) × UniqueNames hs

  exists-append :
      (name : Bytes) (hs : List (Held T)) (h : Held T)
      → family_name_exists name (hs ++ (h ∷ []))
        ≡ (family_name_exists name hs || bytes_eq name h.family.name)
  exists-append name [] h = ground arith
  exists-append name (g ∷ hs) h = ground (arith, exists-append name hs h)

  exists-erase :
      (name : Bytes) (address : ℕ) (hs : List (Held T))
      → family_name_exists name hs ≡ false
      → family_name_exists name (erase_family address hs) ≡ false
  exists-erase name address [] e = refl
  exists-erase name address (h ∷ hs) e =
      let rest = exists-erase name address hs (ground arith) in ground arith

  exists-erased :
      (name : Bytes) (address : ℕ) (hs : List (Held T))
      → family_name_exists name (erase_family address hs) ≡ true
      → family_name_exists name hs ≡ true
  exists-erased name address hs e = elim (Bool-cases (family_name_exists name hs)) [
    | inl q ↦ q
    | inr q ↦ absurd (cc (exists-erase name address hs q, e))
  ]

  UniqueNames-append :
      (hs : List (Held T)) (h : Held T)
      → UniqueNames hs
      → family_name_exists h.family.name hs ≡ false
      → UniqueNames (hs ++ (h ∷ []))
  UniqueNames-append [] h u fresh = (refl, tt)
  UniqueNames-append (g ∷ hs) h u fresh =
      let there = exists-append g.family.name hs h in
      let comm = bytes_eq_comm g.family.name h.family.name in
      (ground arith, UniqueNames-append hs h u.1 (ground arith))

  UniqueNames-erase :
      (address : ℕ) (hs : List (Held T)) → UniqueNames hs → UniqueNames (erase_family address hs)
  UniqueNames-erase address [] u = tt
  UniqueNames-erase address (h ∷ hs) u = elim (Bool-cases (h.address == address)) [
    | inl q ↦ rw q u.1
    | inr q ↦ rw q (exists-erase h.family.name address hs u.0, UniqueNames-erase address hs u.1)
  ]

module _ {C G : Type 0} where
  -- No family of one list has a name of the other's.
  abbrev pub Apart : List (Held C) → List (Held G) → Type 0
  Apart cs gs =
      (name : Bytes) → family_name_exists name cs ≡ true → family_name_exists name gs ≡ false

-- Adding to one list: a new family at the end, under a valid name that neither list had; or a panic.
module _ {T : Type 0} where
  Added : List (Held T) → Bytes → Bool → List (Held T) → Type 0
  Added hs name in_other gs =
      (in_other ≡ false)
      × (family_name_exists name hs ≡ false)
      × (h : Held T) × (h.family.name ≡ name)
      × (gs ≡ hs ++ (h ∷ []))

  add_to-Added :
      (type : MetricType) (in_other : Bool) (hs : List (Held T)) (name help : Bytes)
      (labels : Labels) (address : ℕ)
      → OnSome (Added hs name in_other) (add_to type in_other hs name help labels address)
  unfolding add_to construct Added
  add_to-Added type true hs name help labels address = tt
  add_to-Added type false hs name help labels address =
      elim (Bool-cases (family_name_exists name hs)) [
        | inl q ↦ rw q tt
        | inr q ↦ elim (Bool-cases (check_metric_name name)) [
          | inr v ↦ rw (q, v) tt
          | inl v ↦ elim (Bool-cases (label_names_valid type labels)) [
            | inr w ↦ rw (q, v, w) tt
            | inl w ↦ rw (q, v, w) (refl, q, _, refl, refl)
          ]
        ]
      ]

module _ {C G : Type 0} where
  Apart-append_left :
      (cs : List (Held C)) (gs : List (Held G)) (c : Held C)
      → Apart cs gs
      → family_name_exists c.family.name gs ≡ false
      → Apart (cs ++ (c ∷ [])) gs
  Apart-append_left cs gs c apart fresh name e = elim (Bool-cases (family_name_exists name cs)) [
    | inl q ↦ apart name q
    | inr q ↦
        let there = exists-append name cs c in
        let same = bytes_eq→eq name c.family.name (ground arith) in
        subst (λ x. family_name_exists x gs ≡ false) (sym same) fresh
  ]

  Apart-append_right :
      (cs : List (Held C)) (gs : List (Held G)) (g : Held G)
      → Apart cs gs
      → family_name_exists g.family.name cs ≡ false
      → Apart cs (gs ++ (g ∷ []))
  Apart-append_right cs gs g apart fresh name e =
      let there = exists-append name gs g in
      let old = apart name e in
      elim (Bool-cases (bytes_eq name g.family.name)) [
        | inr q ↦ ground arith
        | inl q ↦
            let same = bytes_eq→eq name g.family.name q in
            let e' = subst (λ x. family_name_exists x cs ≡ true) same e in absurd (cc (e', fresh))
      ]

module _ {C G H : Type 0} where
  abbrev pub NamesApart : Registry C G H → Type 0
  NamesApart r =
      UniqueNames r.counters
      × UniqueNames r.gauges
      × UniqueNames r.histograms
      × Apart r.counters r.gauges

  -- The registries that a program can build.
  pub data Built : Registry C G H → Type 0 where
    empty : Built empty_registry
    counter_added :
        {r q : Registry C G H} (name help : Bytes) (labels : Labels) (address : ℕ)
        → Built r
        → add_counter r name help labels address ≡ some q
        → Built q
    gauge_added :
        {r q : Registry C G H} (name help : Bytes) (labels : Labels) (address : ℕ)
        → Built r
        → add_gauge r name help labels address ≡ some q
        → Built q
    histogram_added :
        {r q : Registry C G H} (name help : Bytes) (labels : Labels) (address : ℕ)
        → Built r
        → add_histogram r name help labels address ≡ some q
        → Built q
    counter_removed :
        {r : Registry C G H} (address : ℕ) → Built r → Built (remove_counter r address).0
    gauge_removed : {r : Registry C G H} (address : ℕ) → Built r → Built (remove_gauge r address).0
    histogram_removed :
        {r : Registry C G H} (address : ℕ) → Built r → Built (remove_histogram r address).0

  with_counters-NamesApart :
      (r : Registry C G H) (name : Bytes) (o : Option (List (Held C)))
      → NamesApart r
      → OnSome (Added r.counters name (family_name_exists name r.gauges)) o
      → OnSome NamesApart (with_counters r o)
  unfolding Added
  with_counters-NamesApart r name none n a = tt
  with_counters-NamesApart r name (some fs) n (other, fresh, h, named, eq) = rw eq (
    UniqueNames-append r.counters h n.0 (rw named fresh),
    n.1,
    n.2,
    Apart-append_left r.counters r.gauges h n.3 (rw named other),
  )

  with_gauges-NamesApart :
      (r : Registry C G H) (name : Bytes) (o : Option (List (Held G)))
      → NamesApart r
      → OnSome (Added r.gauges name (family_name_exists name r.counters)) o
      → OnSome NamesApart (with_gauges r o)
  unfolding Added
  with_gauges-NamesApart r name none n a = tt
  with_gauges-NamesApart r name (some fs) n (other, fresh, h, named, eq) = rw eq (
    n.0,
    UniqueNames-append r.gauges h n.1 (rw named fresh),
    n.2,
    Apart-append_right r.counters r.gauges h n.3 (rw named other),
  )

  with_histograms-NamesApart :
      (r : Registry C G H) (name : Bytes) (o : Option (List (Held H)))
      → NamesApart r
      → OnSome (Added r.histograms name (family_name_exists name r.histograms)) o
      → OnSome NamesApart (with_histograms r o)
  unfolding Added
  with_histograms-NamesApart r name none n a = tt
  with_histograms-NamesApart r name (some fs) n (other, fresh, h, named, eq) =
      rw eq (n.0, n.1, UniqueNames-append r.histograms h n.2 (rw named fresh), n.3)

  -- However families were added and removed, no two counters, no two gauges and no two histograms
  -- have one name, and no counter has a gauge's name.
  pub Built-NamesApart : (r : Registry C G H) → Built r → NamesApart r
  unfolding empty_registry add_counter add_gauge add_histogram remove_counter remove_gauge
      remove_histogram
  Built-NamesApart r empty = (tt, tt, tt, λ name e. refl)
  Built-NamesApart r (counter_added {r = q} name help labels address b h) =
      let added =
        add_to-Added counter (family_name_exists name q.gauges) q.counters name help labels
          address in
      result_of NamesApart _ r (with_counters-NamesApart q name _ (Built-NamesApart q b) added) h
  Built-NamesApart r (gauge_added {r = q} name help labels address b h) =
      let added =
        add_to-Added gauge (family_name_exists name q.counters) q.gauges name help labels address in
      result_of NamesApart _ r (with_gauges-NamesApart q name _ (Built-NamesApart q b) added) h
  Built-NamesApart r (histogram_added {r = q} name help labels address b h) =
      let in_other = family_name_exists name q.histograms in
      let added = add_to-Added histogram in_other q.histograms name help labels address in
      result_of NamesApart _ r (with_histograms-NamesApart q name _ (Built-NamesApart q b) added) h
  Built-NamesApart r (counter_removed {r = q} address b) =
      let n = Built-NamesApart q b in
      (
        UniqueNames-erase address q.counters n.0,
        n.1,
        n.2,
        λ name e. n.3 name (exists-erased name address q.counters e),
      )
  Built-NamesApart r (gauge_removed {r = q} address b) =
      let n = Built-NamesApart q b in
      (
        n.0,
        UniqueNames-erase address q.gauges n.1,
        n.2,
        λ name e. exists-erase name address q.gauges (n.3 name e),
      )
  Built-NamesApart r (histogram_removed {r = q} address b) =
      let n = Built-NamesApart q b in (n.0, n.1, UniqueNames-erase address q.histograms n.2, n.3)

  -- A histogram's `Add` looks at histograms alone: with a name that no histogram has, and valid
  -- names, it succeeds even when a counter or a gauge has that name; otherwise it panics.
  add_histogram_lem :
      (r : Registry C G H) (name help : Bytes) (labels : Labels) (address : ℕ)
      → ((q : Registry C G H) × (add_histogram r name help labels address ≡ some q)
          × (q.counters ≡ r.counters)
          × (q.gauges ≡ r.gauges)
          × (family_name_exists name q.histograms ≡ true)
          × (family_name_exists name r.histograms ≡ false))
        ⊎ ((add_histogram r name help labels address ≡ none)
            × ((family_name_exists name r.histograms ≡ true)
                ⊎ ((check_metric_name name ≡ false)
                    ⊎ (label_names_valid histogram labels ≡ false))))
  unfolding add_histogram add_to construct
  add_histogram_lem r name help labels address =
      elim (Bool-cases (family_name_exists name r.histograms)) [
        | inl q ↦ inr (rw q refl, inl q)
        | inr q ↦ elim (Bool-cases (check_metric_name name)) [
          | inr v ↦ inr (rw (q, v) refl, inr (inl v))
          | inl v ↦ elim (Bool-cases (label_names_valid histogram labels)) [
            | inr w ↦ inr (rw (q, v, w) refl, inr (inr w))
            | inl w ↦
                let f : Family H = record {
                  name = name;
                  help = help;
                  constant_labels = labels;
                  metrics = [];
                } in
                let h : Held H = record { address = address; family = f } in
                let made : Registry C G H = record {
                  counters = r.counters;
                  gauges = r.gauges;
                  histograms = r.histograms ++ (h ∷ []);
                } in
                let there : family_name_exists name (r.histograms ++ (h ∷ [])) ≡ true =
                  exists-append name r.histograms h ∙ rw (q, bytes_eq_refl name) refl in
                inl (made, rw (q, v, w) refl, refl, refl, there, q)
          ]
        ]
      ]
