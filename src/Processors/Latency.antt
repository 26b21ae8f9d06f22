-- ===== src/Processors/Latency.antt =====
-- src/processors/benchmark/latency_collector.cpp: LatencyCounter. The elements that `Take` will give are a list,
-- behind which it gives none, and `clock` is what the clock shows at each timed `Take`. The double products
-- truncate to the exact quotients for the 1024 values.
use postboy.Prelude.{
  ℕ, zero, suc, ◌+◌, ◌-◌, ◌*◌, ◌/◌, ◌%◌, ◌^◌, ◌≤◌, ◌<◌, ◌≡◌, refl, Option, none, some, List, [],
  ◌∷◌, ◌++◌, arith, length, length-append, Bool, true, false, dec_lt,
}
use postboy.Api.Latencies.{sort, at_percent, sort-Ordered, length-sort}

-- The first loop; none where `Take` gives none.
abbrev pub warm_up : ℕ → List ℕ → Option (List ℕ)
warm_up zero inputs = some inputs
warm_up (suc n) [] = none
warm_up (suc n) (x ∷ xs) = warm_up n xs

-- `now - *inp` of two uint64_t, whose representatives are below 2^64.
abbrev pub elapsed : ℕ → ℕ → ℕ
elapsed now inp = (now + (2 ^ 64 - inp)) % 2 ^ 64

-- The second loop: the elements left, when it ends by itself, and the latencies.
abbrev pub measure : ℕ → (ℕ → ℕ) → List ℕ → List ℕ → Option (List ℕ) × List ℕ
measure zero clock inputs latencies = (some inputs, latencies)
measure (suc n) clock [] latencies = (none, latencies)
measure (suc n) clock (x ∷ xs) latencies =
    measure n (λ k. clock (suc k)) xs (latencies ++ (elapsed (clock 0) x ∷ []))

abbrev pub Percentiles : Type 0
Percentiles = Option ℕ × Option ℕ × Option ℕ

-- `PrintPercentiles`; none is a read out of bounds.
unfoldable pub print_percentiles : List ℕ → Percentiles
print_percentiles latencies =
    let sorted = sort latencies in
    (at_percent sorted 50, at_percent sorted 75, at_percent sorted 99)

pub record Processed : Type 0 where
  pub finish_requested : Bool
  pub printed : Option Percentiles
  pub latencies : List ℕ

abbrev pub measured : Option (List ℕ) × List ℕ → Processed
measured (none, latencies) = record {
  finish_requested = true;
  printed = none;
  latencies = latencies;
}
measured (some rest, latencies) = record {
  finish_requested = false;
  printed = some (print_percentiles latencies);
  latencies = [];
}

abbrev pub after_warm_up : ℕ → (ℕ → ℕ) → List ℕ → Option (List ℕ) → Processed
after_warm_up n clock latencies none = record {
  finish_requested = true;
  printed = none;
  latencies = latencies;
}
after_warm_up n clock latencies (some inputs) = measured (measure n clock inputs latencies)

unfoldable pub process_with : ℕ → ℕ → (ℕ → ℕ) → List ℕ → List ℕ → Processed
process_with warm n clock inputs latencies = after_warm_up n clock latencies (warm_up warm inputs)

unfoldable pub latency_process : (ℕ → ℕ) → List ℕ → List ℕ → Processed
latency_process clock inputs latencies = process_with (32 * 2 ^ 10) (2 ^ 10) clock inputs latencies

warm_up-some :
    (n : ℕ) (xs : List ℕ)
    → n ≤ length xs
    → (ys : List ℕ) × (warm_up n xs ≡ some ys) × (length ys + n ≡ length xs)
warm_up-some zero xs h = (xs, refl, omega arith)
warm_up-some (suc n) [] h = absurd (omega (arith, h))
warm_up-some (suc n) (x ∷ xs) h =
    let (ys, e, l) = warm_up-some n xs (omega (arith, h)) in (ys, e, omega (arith, l))

warm_up-none : (n : ℕ) (xs : List ℕ) → length xs < n → warm_up n xs ≡ none
warm_up-none zero xs h = absurd (omega (arith, h))
warm_up-none (suc n) [] h = refl
warm_up-none (suc n) (x ∷ xs) h = warm_up-none n xs (omega (arith, h))

measure-some :
    (n : ℕ) (clock : ℕ → ℕ) (xs ls : List ℕ)
    → n ≤ length xs
    → (rest : List ℕ) × (ms : List ℕ) × (measure n clock xs ls ≡ (some rest, ms))
      × (length ms ≡ length ls + n)
measure-some zero clock xs ls h = (xs, ls, refl, omega arith)
measure-some (suc n) clock [] ls h = absurd (omega (arith, h))
measure-some (suc n) clock (x ∷ xs) ls h =
    let more = ls ++ (elapsed (clock 0) x ∷ []) in
    let (rest, ms, e, l) = measure-some n (λ k. clock (suc k)) xs more (omega (arith, h)) in
    (rest, ms, e, omega (arith, l, length-append ls (elapsed (clock 0) x ∷ [])))

measure-none :
    (n : ℕ) (clock : ℕ → ℕ) (xs ls : List ℕ) → length xs < n → (measure n clock xs ls).0 ≡ none
measure-none zero clock xs ls h = absurd (omega (arith, h))
measure-none (suc n) clock [] ls h = refl
measure-none (suc n) clock (x ∷ xs) ls h = measure-none n _ xs _ (omega (arith, h))

-- What is printed is there, each value at most the next.
abbrev pub Printed : Option Percentiles → Type 0
Printed printed =
    (a : ℕ) × (b : ℕ) × (c : ℕ) × (printed ≡ some (some a, some b, some c)) × (a ≤ b) × (b ≤ c)

print_percentiles-Printed : (ls : List ℕ) → 0 < length ls → Printed (some (print_percentiles ls))
unfolding print_percentiles
print_percentiles-Printed ls h =
    let n = length ls in
    let (a, b, fa, fb, ab) =
      sort-Ordered ls (n * 50 / 100) (n * 75 / 100) (omega arith) (omega (arith, h)) in
    let (b', c, fb', fc, bc) =
      sort-Ordered ls (n * 75 / 100) (n * 99 / 100) (omega arith) (omega (arith, h)) in
    let sb : b' ≡ b = cc (fb', fb) in
    (a, b, c, rw (length-sort ls) (rw (fa, fb, fc) refl), ab, omega (arith, sb, bc))

stopped :
    (o : Option (List ℕ) × List ℕ)
    → o.0 ≡ none
    → ((measured o).finish_requested ≡ true) × ((measured o).printed ≡ none)
stopped (none, ls) e = (refl, refl)
stopped (some rest, ls) e = absurd (cc e)

process_with_lem :
    (warm n : ℕ) (clock : ℕ → ℕ) (inputs : List ℕ)
    → 0 < n
    → (warm + n ≤ length inputs
        → Printed (process_with warm n clock inputs []).printed
          × ((process_with warm n clock inputs []).latencies ≡ []))
      × (length inputs < warm + n
          → ((process_with warm n clock inputs []).finish_requested ≡ true)
            × ((process_with warm n clock inputs []).printed ≡ none))
unfolding process_with
process_with_lem warm n clock inputs pos = (enough, short)
  where
    enough :
        warm + n ≤ length inputs
        → Printed (process_with warm n clock inputs []).printed
          × ((process_with warm n clock inputs []).latencies ≡ [])
    enough h =
        let (ys, e, l) = warm_up-some warm inputs (omega (arith, h)) in
        let (rest, ms, f, m) = measure-some n clock ys [] (omega (arith, h, l)) in
        rw (e, f) (print_percentiles-Printed ms (omega (arith, m, pos)), refl)

    short :
        length inputs < warm + n
        → ((process_with warm n clock inputs []).finish_requested ≡ true)
          × ((process_with warm n clock inputs []).printed ≡ none)
    short h = elim (dec_lt (length inputs) warm) [
      | yes lt ↦ rw (warm_up-none warm inputs lt) (refl, refl)
      | no ne ↦
          let (ys, e, l) = warm_up-some warm inputs (omega (arith, ne)) in
          let f = measure-none n clock ys [] (omega (arith, h, l)) in
          rw e (stopped (measure n clock ys []) f)
    ]

-- When as many elements come as LatencyCounter waits for, its first call prints three percentiles, which are
-- read in bounds and of which each is at most the next, and keeps no latency; when fewer come, it requests a
-- finish and prints nothing.
latency_process_lem :
    (clock : ℕ → ℕ) (inputs : List ℕ)
    → (33792 ≤ length inputs
        → Printed (latency_process clock inputs []).printed
          × ((latency_process clock inputs []).latencies ≡ []))
      × (length inputs < 33792
          → ((latency_process clock inputs []).finish_requested ≡ true)
            × ((latency_process clock inputs []).printed ≡ none))
unfolding latency_process
latency_process_lem clock inputs =
    process_with_lem (32 * 2 ^ 10) (2 ^ 10) clock inputs (omega arith)
