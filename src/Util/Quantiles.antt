-- ===== src/Util/Quantiles.antt =====
-- src/common/util/quantiles.hpp: picking quantiles out of sorted values.
use postboy.Prelude.{
  ℕ, zero, suc, ◌-◌, ◌*◌, ◌/◌, ◌%◌, ◌^◌, ◌≤◌, ◌<◌, max, ◌≡◌, refl, Option, none, some, List, [],
  ◌∷◌, map, arith, length, get_elem?, get_or, ltb, ◌==◌, if◌then◌else◌, false,
}
use native.Mathlib.Nat.{mul-le-mul_left}

pub record Quantile (T : Type 0) : Type 0 where
  pub idx : ℕ
  pub value : T

-- The 64-bit product, divided and stepped back to an index.
abbrev pub quantile_index : ℕ → ℕ → ℕ
quantile_index count quantile =
    let index = count * quantile % 2 ^ 64 / 100 in if index == 0 then index else index - 1

abbrev pub AllPercent : List ℕ → Type 0
AllPercent [] = Unit {0}
AllPercent (q ∷ qs) = (q ≤ 100) × AllPercent qs

module _ {T : Type 0} where
  abbrev pub push_quantile : ℕ → Option T → Option (List (Quantile T)) → Option (List (Quantile T))
  push_quantile q none later = none
  push_quantile q (some v) none = none
  push_quantile q (some v) (some later) = some (record { idx = q; value = v } ∷ later)

  -- The loop; `none` is a read behind the last value.
  unfoldable pub calculate_loop : List T → List ℕ → Option (List (Quantile T))
  calculate_loop values [] = some []
  calculate_loop values (q ∷ qs) =
      push_quantile q (get_elem? values (quantile_index (length values) q))
        (calculate_loop values qs)

  unfoldable pub calculate : List T → List ℕ → Option (List (Quantile T))
  unfolding calculate_loop
  calculate values qs =
      if ltb (length values) (length qs) then some [] else calculate_loop values qs

  -- The specification: the value of rank `count * quantile / 100`, at least 1.
  abbrev pub ranked : List T → T → ℕ → Quantile T
  ranked values default q = record {
    idx = q;
    value = get_or values (max 1 (length values * q / 100) - 1) default;
  }

get_elem?-get_or :
    {T : Type 0} (xs : List T) (i : ℕ) (d : T)
    → i < length xs
    → get_elem? xs i ≡ some (get_or xs i d)
get_elem?-get_or [] i d h = absurd (omega arith)
get_elem?-get_or (x ∷ xs) zero d h = refl
get_elem?-get_or (x ∷ xs) (suc i) d h = get_elem?-get_or xs i d (omega arith)

rank_bounds :
    (n product : ℕ)
    → 0 < n
    → product ≤ n * 100
    → product < 2 ^ 64
    → ((let index = product % 2 ^ 64 / 100 in if index == 0 then index else index - 1)
        ≡ max 1 (product / 100) - 1)
      × (max 1 (product / 100) - 1 < n)
rank_bounds n product h a b = (ground arith, omega arith)

index_rank :
    (n q : ℕ)
    → 0 < n
    → q ≤ 100
    → n * 100 < 2 ^ 64
    → (quantile_index n q ≡ max 1 (n * q / 100) - 1) × (max 1 (n * q / 100) - 1 < n)
index_rank n q h p b =
    let product : n * q ≤ n * 100 = mul-le-mul_left n p in
    let small : n * q < 2 ^ 64 = omega arith in
    let (fits, inside) = rank_bounds n (n * q) h product small in (fits, inside)

module _ {T : Type 0} where
  calculate_loop_lem :
      (values : List T) (d : T) (qs : List ℕ)
      → 0 < length values
      → length values * 100 < 2 ^ 64
      → AllPercent qs
      → calculate_loop values qs ≡ some (map (ranked values d) qs)
  unfolding calculate_loop
  calculate_loop_lem values d [] h b all = refl
  calculate_loop_lem values d (q ∷ qs) h b all =
      let (same, inside) = index_rank (length values) q h all.0 b in
      rw
        (
          same,
          get_elem?-get_or values (max 1 (length values * q / 100) - 1) d inside,
          calculate_loop_lem values d qs h b all.1,
        )
        refl

  -- For percentages, of at least one and at least as many values as quantiles, and so few values
  -- that a hundred times their number is below 2^64: every read is in bounds, and each quantile's
  -- value is the one of rank `count * quantile / 100`, at least 1.
  pub calculate_lem :
      (values : List T) (d : T) (qs : List ℕ)
      → 0 < length values
      → length qs ≤ length values
      → length values * 100 < 2 ^ 64
      → AllPercent qs
      → calculate values qs ≡ some (map (ranked values d) qs)
  unfolding calculate
  calculate_lem values d qs h few b all =
      let enough : ltb (length values) (length qs) ≡ false = ground arith in
      rw enough (calculate_loop_lem values d qs h b all)
