-- ===== src/Prometheus/Histogram.antt =====
-- src/postboy/prometheus_metrics/histogram.hpp, over any type of doubles with its order.
-- A bucket counter is an `atomic<double>`: adding 1 is exact up to 2^53 and does nothing from there
-- on. `Collect` adds the counters up in an `int`.
use postboy.Prelude.{
  ℕ, zero, suc, ◌+◌, ◌^◌, ◌≡◌, Option, none, some, List, [], ◌∷◌, length, replicate, ltb,
  if◌then◌else◌, Bool, true, ◌&&◌,
}

pub record Doubles : Type 1 where
  pub Double : Type 0
  pub less : Double → Double → Bool
  pub add : Double → Double → Double
  pub zero_double : Double
  pub less_trans : (a b c : Double) → less a b ≡ true → less b c ≡ true → less a c ≡ true

abbrev pub increment : ℕ → ℕ
increment n = if ltb n (2 ^ 53) then n + 1 else n

-- `int` addition of a bucket; `none` where the sum is no `int`.
abbrev pub add_int : ℕ → ℕ → Option ℕ
add_int count c = if ltb (count + c) (2 ^ 31) then some (count + c) else none

module _ (d : Doubles) where
  open d use {Double, less, add, zero_double}

  pub record Histogram : Type 0 where
    pub bucket_bounds : List Double
    pub sum : Double
    pub bucket_counts : List ℕ

  -- `upper_bound` is `none` for infinity.
  pub record Bucket : Type 0 where
    pub cumulative_count : ℕ
    pub upper_bound : Option Double

  pub record Collected : Type 0 where
    pub sample_count : ℕ
    pub sample_sum : Double
    pub buckets : List Bucket

  -- `IsSorted`: no neighbours with `greater_equal`, which is "not less" away from NaN.
  unfoldable pub is_sorted : List Double → Bool
  is_sorted [] = true
  is_sorted (a ∷ []) = true
  is_sorted (a ∷ b ∷ bs) = less a b && is_sorted (b ∷ bs)

  -- The constructor; `none` is a failed VERIFY.
  unfoldable pub construct : List Double → Option Histogram
  construct bounds =
      if is_sorted bounds
      then some (record {
        bucket_bounds = bounds;
        sum = zero_double;
        bucket_counts = replicate (length bounds + 1) 0;
      })
      else none

  -- `std::lower_bound`: the index of the first bound that is not less than the value.
  unfoldable pub lower_bound : List Double → Double → ℕ
  lower_bound [] v = 0
  lower_bound (b ∷ bs) v = let later = suc (lower_bound bs v) in if less b v then later else 0

  unfoldable pub bump : List ℕ → ℕ → List ℕ
  bump [] i = []
  bump (c ∷ cs) zero = increment c ∷ cs
  bump (c ∷ cs) (suc i) = c ∷ bump cs i

  unfoldable pub observe : Histogram → Double → Histogram
  observe h v = record h {
    bucket_counts = bump h.bucket_counts (lower_bound h.bucket_bounds v);
    sum = add h.sum v;
  }

  unfoldable pub reset : Histogram → Histogram
  reset h = record h { bucket_counts = replicate (length h.bucket_counts) 0; sum = zero_double }

  abbrev pub front_bound : List Double → Option Double
  front_bound [] = none
  front_bound (b ∷ bs) = some b

  abbrev pub other_bounds : List Double → List Double
  other_bounds [] = []
  other_bounds (b ∷ bs) = bs

  -- The loop of `Collect`: the running count, and the counters and bounds from the present index on.
  unfoldable pub collect_loop : ℕ → List ℕ → List Double → Option (List Bucket × ℕ)
  collect_loop count [] bounds = some ([], count)
  collect_loop count (c ∷ cs) bounds = elim (add_int count c) [
    | none ↦ none
    | some count' ↦ elim (collect_loop count' cs (other_bounds bounds)) [
      | none ↦ none
      | some (bs, total) ↦
          some
            ((record { cumulative_count = count'; upper_bound = front_bound bounds }) ∷ bs, total)
    ]
  ]

  unfoldable pub collect : Histogram → Option Collected
  collect h = elim (collect_loop 0 h.bucket_counts h.bucket_bounds) [
    | none ↦ none
    | some (bs, total) ↦ some (record { sample_count = total; sample_sum = h.sum; buckets = bs })
  ]

  -- Observations, the latest last.
  unfoldable pub observe_all : Histogram → List Double → Histogram
  observe_all h [] = h
  observe_all h (v ∷ vs) = observe_all (observe h v) vs
