-- ===== src/Processors/Counting.antt =====
-- Range: which numbers it puts.
use postboy.Prelude.{
  ℕ, zero, suc, ◌+◌, ◌-◌, ◌%◌, ◌^◌, ◌≤◌, ◌<◌, ◌≡◌, refl, ap, sym, subst, some, List, [], ◌∷◌, arith,
  leb, if◌then◌else◌, Bool, true, false, dec_lt,
}
use postboy.Processors.{Output, puts, requests_finish, nothing, Range, range, range_process}

-- What the first calls of `Process` put; they end where one of them requests a finish.
abbrev pub outputs_from : (Range → List ℕ × Bool) → Range × Output ℕ → List ℕ × Bool
outputs_from later (p, puts x) = let (xs, finishes) = later p in (x ∷ xs, finishes)
outputs_from later (p, requests_finish) = ([], true)
outputs_from later (p, nothing) = later p

unfoldable pub outputs : ℕ → Range → List ℕ × Bool
outputs zero p = ([], false)
outputs (suc n) p = outputs_from (outputs n) (range_process p)

abbrev pub count_up : ℕ → ℕ → List ℕ
count_up i zero = []
count_up i (suc n) = i ∷ count_up (i + 1) n

outputs-count :
    (n i r : ℕ)
    → i + n ≡ r
    → r < 2 ^ 64
    → outputs (suc n) (record { i = i; r = some r }) ≡ (count_up i n, true)
unfolding outputs range_process
outputs-count zero i r e h = let last : leb r i ≡ true = ground (arith, e) in rw last refl
outputs-count (suc n) i r e h =
    let more : leb r i ≡ false = ground (arith, e) in
    let later : (i + 1) % 2 ^ 64 ≡ i + 1 = omega (arith, e, h) in
    let rest : outputs (suc n) (record { i = (i + 1) % 2 ^ 64; r = some r })
        ≡ (count_up (i + 1) n, true) =
      subst (λ j. outputs (suc n) (record { i = j; r = some r }) ≡ (count_up (i + 1) n, true))
        (sym later) (outputs-count n (i + 1) r (omega (arith, e)) h) in
    subst
      (λ b.
        outputs_from (outputs (suc n)) (
          if b
          then (record { i = i; r = some r }, requests_finish)
          else (record { i = (i + 1) % 2 ^ 64; r = some r }, puts i))
        ≡ (count_up i (suc n), true))
      (sym more) (ap (λ o. (i ∷ o.0, o.1)) rest)

outputs-finished : (i r : ℕ) → r ≤ i → outputs 1 (record { i = i; r = some r }) ≡ ([], true)
unfolding outputs range_process
outputs-finished i r le = let last : leb r i ≡ true = ground (arith, le) in rw last refl

-- With an end of at most 2^63, as many calls of `Process` as the numbers from the start to the end, and one more,
-- put these numbers, each once and in order, and then request a finish; a start behind the end, which a
-- configured start of 2^63 or more also is, puts none.
range_process_lem :
    (l r : ℕ)
    → r ≤ 2 ^ 63
    → outputs (suc (r - l % 2 ^ 64)) (range l (some r))
      ≡ (count_up (l % 2 ^ 64) (r - l % 2 ^ 64), true)
range_process_lem l r h = elim (dec_lt r (l % 2 ^ 64)) [
  | no ne ↦ outputs-count (r - l % 2 ^ 64) (l % 2 ^ 64) r (omega (arith, ne)) (omega (arith, h))
  | yes lt ↦
      let none_left : r - l % 2 ^ 64 ≡ 0 = omega (arith, lt) in
      subst (λ n. outputs (suc n) (range l (some r)) ≡ (count_up (l % 2 ^ 64) n, true))
        (sym none_left) (outputs-finished (l % 2 ^ 64) r (omega (arith, lt)))
]
