-- ===== src/Prometheus/HistogramCounts.antt =====
-- What a collected histogram says of the values observed.
use postboy.Prelude.{
  ℕ, suc, ◌+◌, ◌^◌, ◌≤◌, ◌<◌, ◌≡◌, refl, ap, ap₂, ◌∙◌, inl, inr, Option, none, some, List, [], ◌∷◌,
  ◌++◌, append-nil, append_assoc, arith, length, length-append, replicate, if◌then◌else◌, true,
  Bool-cases,
}
use postboy.Prometheus.Histogram.{
  Doubles, Histogram, Bucket, is_sorted, construct, lower_bound, bump, observe, observe_all,
  collect_loop, collect, add_int,
}

module _ (d : Doubles) where
  open d use {Double, less, add, zero_double, less_trans}

  -- How many values are at most `b`.
  unfoldable pub count_le : Double → List Double → ℕ
  count_le b [] = 0
  count_le b (v ∷ vs) = (if less b v then 0 else 1) + count_le b vs

  above : Double → List Double → List Double
  above b [] = []
  above b (v ∷ vs) = if less b v then v ∷ above b vs else above b vs

  -- The specification: a bucket for each bound, then the one for infinity.
  abbrev pub bucket : ℕ → Option Double → Bucket d
  bucket n b = record { cumulative_count = n; upper_bound = b }

  pub expected_buckets : List Double → List Double → List (Bucket d)
  expected_buckets [] vs = bucket (length vs) none ∷ []
  expected_buckets (b ∷ bs) vs = bucket (count_le b vs) (some b) ∷ expected_buckets bs vs

  pub total : Double → List Double → Double
  total s [] = s
  total s (v ∷ vs) = total (add s v) vs

  -- The counters that the observations leave: each value in the first bucket that takes it.
  counters : List Double → List Double → List ℕ
  counters [] vs = length vs ∷ []
  counters (b ∷ bs) vs = count_le b vs ∷ counters bs (above b vs)

  length-above : (b : Double) (vs : List Double) → count_le b vs + length (above b vs) ≡ length vs
  unfolding count_le above
  length-above b [] = refl
  length-above b (v ∷ vs) = ground (arith, length-above b vs)

  -- A bound above `b` counts those at most `b` and, of the others, those at most itself.
  count_le-above :
      (b c : Double) (vs : List Double)
      → less b c ≡ true
      → count_le b vs + count_le c (above b vs) ≡ count_le c vs
  unfolding count_le above
  count_le-above b c [] h = refl
  count_le-above b c (v ∷ vs) h = ground (arith, count_le-above b c vs h, less_trans b c v)

  snoc-length : (vs : List Double) (v : Double) → length (vs ++ (v ∷ [])) ≡ length vs + 1
  snoc-length vs v = length-append vs (v ∷ [])

  count_le-snoc :
      (b v : Double) (vs : List Double)
      → count_le b (vs ++ (v ∷ [])) ≡ count_le b vs + (if less b v then 0 else 1)
  unfolding count_le
  count_le-snoc b v [] = omega arith
  count_le-snoc b v (w ∷ vs) = omega (arith, count_le-snoc b v vs)

  above-snoc :
      (b v : Double) (vs : List Double)
      → above b (vs ++ (v ∷ [])) ≡ above b vs ++ (if less b v then v ∷ [] else [])
  unfolding above
  above-snoc b v [] = ground arith
  above-snoc b v (w ∷ vs) = elim (Bool-cases (less b w)) [
    | inl e ↦ rw (e, above-snoc b v vs)
    | inr e ↦ rw (e, above-snoc b v vs)
  ]

  count_le_bound : (b : Double) (vs : List Double) → count_le b vs ≤ length vs
  unfolding count_le
  count_le_bound b [] = omega arith
  count_le_bound b (v ∷ vs) = ground (arith, count_le_bound b vs)

  -- One more observation, below 2^53 of them.
  bump-counters :
      (bounds vs : List Double) (v : Double)
      → length vs < 2 ^ 53
      → bump d (counters bounds vs) (lower_bound d bounds v) ≡ counters bounds (vs ++ (v ∷ []))
  unfolding counters lower_bound bump
  bump-counters [] vs v h = ground (arith, snoc-length vs v)
  bump-counters (b ∷ bs) vs v h = elim (Bool-cases (less b v)) [
    | inl e ↦
        rw (e, count_le-snoc b v vs, above-snoc b v vs, e)
          (ap₂ ◌∷◌ (omega arith)
            (bump-counters bs (above b vs) v (omega (arith, length-above b vs))))
    | inr e ↦
        rw (e, count_le-snoc b v vs, above-snoc b v vs, e, append-nil)
          (ap₂ ◌∷◌ (ground (arith, count_le_bound b vs)) refl)
  ]

  abbrev Every : (Double → Type 0) → List Double → Type 0
  Every P [] = Unit {0}
  Every P (b ∷ bs) = P b × Every P bs

  Every-mono :
      {P Q : Double → Type 0} (bs : List Double)
      → ((b : Double) → P b → Q b)
      → Every P bs
      → Every Q bs
  Every-mono [] f h = tt
  Every-mono (b ∷ bs) f h = (f b h.0, Every-mono bs f h.1)

  Every-zip :
      {P Q R : Double → Type 0} (bs : List Double)
      → ((b : Double) → P b → Q b → R b)
      → Every P bs
      → Every Q bs
      → Every R bs
  Every-zip [] f h k = tt
  Every-zip (b ∷ bs) f h k = (f b h.0 k.0, Every-zip bs f h.1 k.1)

  sorted_head :
      (b : Double) (bs : List Double)
      → is_sorted d (b ∷ bs) ≡ true
      → Every (λ c. less b c ≡ true) bs
  unfolding is_sorted
  sorted_head b [] h = tt
  sorted_head b (c ∷ bs) h =
      let first : less b c ≡ true = ground arith in
      (first, Every-mono bs (λ x k. less_trans b c x first k) (sorted_head c bs (ground arith)))

  sorted_tail :
      (b : Double) (bs : List Double) → is_sorted d (b ∷ bs) ≡ true → is_sorted d bs ≡ true
  unfolding is_sorted
  sorted_tail b [] h = refl
  sorted_tail b (c ∷ bs) h = ground arith

  add_int-some : (c n : ℕ) → c + n < 2 ^ 31 → add_int c n ≡ some (c + n)
  add_int-some c n h = ground arith

  -- The running count at a bound is the number of values at most that bound.
  collect-counters :
      (bounds ws vs : List Double) (c : ℕ)
      → is_sorted d bounds ≡ true
      → Every (λ b. c + count_le b ws ≡ count_le b vs) bounds
      → c + length ws ≡ length vs
      → length vs < 2 ^ 31
      → collect_loop d c (counters bounds ws) bounds ≡ some (expected_buckets bounds vs, length vs)
  unfolding collect_loop counters expected_buckets
  collect-counters [] ws vs c s e l h =
      rw (add_int-some c (length ws) (omega arith), collect_loop, l)
  collect-counters (b ∷ bs) ws vs c s e l h =
      let below = count_le_bound b ws in
      let rest =
        collect-counters bs (above b ws) vs (c + count_le b ws) (sorted_tail b bs s) later
          (omega (arith, length-above b ws)) h in
      rw (add_int-some c (count_le b ws) (omega arith), collect_loop, rest, e.0) refl
    where
      later : Every (λ x. c + count_le b ws + count_le x (above b ws) ≡ count_le x vs) bs
      later =
          Every-zip bs (λ x k p. omega (arith, count_le-above b x ws k)) (sorted_head b bs s) e.1

  zeroes : (bounds : List Double) → replicate (length bounds + 1) 0 ≡ counters bounds []
  unfolding counters count_le above
  zeroes [] = refl
  zeroes (b ∷ bs) =
      let e : suc (length bs) + 1 ≡ suc (length bs + 1) = omega arith in
      ap (λ n. replicate n 0) e ∙ ap (λ l. 0 ∷ l) (zeroes bs)

  -- A histogram that has seen `seen`.
  abbrev after : List Double → Double → List Double → Histogram d
  after bounds s seen = record {
    bucket_bounds = bounds;
    sum = s;
    bucket_counts = counters bounds seen;
  }

  observe_all-after :
      (bounds : List Double) (s : Double) (seen vs : List Double)
      → length seen + length vs < 2 ^ 53
      → observe_all d (after bounds s seen) vs ≡ after bounds (total s vs) (seen ++ vs)
  unfolding observe_all observe total
  observe_all-after bounds s seen [] h = rw append-nil
  observe_all-after bounds s seen (v ∷ vs) h = rw (bump-counters bounds seen v (omega arith)) (
      observe_all-after bounds (add s v) (seen ++ (v ∷ [])) vs (omega (arith, snoc-length seen v))
      ∙ ap (λ l. after bounds (total (add s v) vs) l) (append_assoc seen (v ∷ []) vs))

  -- A histogram over strictly rising bounds is constructed, and after fewer than 2^31 observations
  -- `Collect` returns, for each bound, how many of them were at most that bound, for infinity and as
  -- the sample count how many there were, and as the sum their sum from zero on.
  pub collect-observe_all :
      (bounds vs : List Double)
      → is_sorted d bounds ≡ true
      → length vs < 2 ^ 31
      → (h : Histogram d) × (construct d bounds ≡ some h)
        × (collect d (observe_all d h vs)
            ≡ some (record {
              sample_count = length vs;
              sample_sum = total zero_double vs;
              buckets = expected_buckets bounds vs;
            }))
  unfolding construct collect
  collect-observe_all bounds vs s h = (
    after bounds zero_double [],
    rw (s, zeroes bounds),
    ap (collect d) (observe_all-after bounds zero_double [] vs (omega arith)) ∙ collected,
  )
    where
      every : (bs : List Double) → Every (λ b. 0 + count_le b vs ≡ count_le b vs) bs
      every [] = tt
      every (b ∷ bs) = (omega arith, every bs)

      collected :
          collect d (after bounds (total zero_double vs) vs)
          ≡ some (record {
            sample_count = length vs;
            sample_sum = total zero_double vs;
            buckets = expected_buckets bounds vs;
          })
      collected = rw (collect-counters bounds vs vs 0 s (every bounds) (omega arith) h, collect)
