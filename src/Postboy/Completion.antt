-- ===== src/Postboy/Completion.antt =====
-- Left alone, a postboy with a call number makes exactly that many calls and finishes.
use postboy.Prelude.{
  ℕ, zero, suc, ◌+◌, ◌*◌, ◌<◌, ◌≡◌, refl, ap, ◌∙◌, some, List, [], ◌∷◌, ◌++◌, append-nil, arith,
  replicate, ltb, true, false,
}
use postboy.Postboy.State.{running, finished}
use postboy.Postboy.Runner.{Runner, Call, init, run, step, run_alone}
use postboy.Postboy.Runner.{starting, run_head}
use postboy.Postboy.Lifecycle.{constructed}

abbrev steps_for : ℕ → ℕ
steps_for zero = 8
steps_for (suc m) = suc (suc (steps_for m))

steps_for_lem : (m : ℕ) → steps_for m ≡ 2 * m + 8
steps_for_lem zero = refl
steps_for_lem (suc m) = omega (arith, steps_for_lem m)

replicate-snoc {ℓ} :
    {A : Type ℓ} (m : ℕ) (x : A) (l : List A) → replicate m x ++ (x ∷ l) ≡ x ∷ (replicate m x ++ l)
replicate-snoc zero x l = refl
replicate-snoc (suc m) x l = ap (λ t. x ∷ t) (replicate-snoc m x l)

-- In the Running loop, with `k` calls made.
abbrev at_head : Runner → ℕ → List Call → Runner
at_head p k cs = record p {
  state = running;
  place = run_head running;
  processed_calls = k;
  calls = cs;
}

one_round :
    (k : ℕ) (cs : List Call) (p : Runner)
    → k < p.call_number
    → step 0 0 (step 0 0 (at_head p k cs)) ≡ at_head p (k + 1) (Call.process ∷ cs)
unfolding step
one_round k cs p h = let more : ltb k p.call_number ≡ true = ground arith in rw more

drive :
    (m k : ℕ) (cs : List Call) (p : Runner)
    → k + m ≡ p.call_number
    → let q = run_alone (steps_for m) (at_head p k cs) in
      (q.state ≡ finished)
      × (q.processed_calls ≡ p.call_number)
      × (q.calls ≡ Call.unlink_queues ∷ Call.finalize ∷ (replicate m Call.process ++ cs))
unfolding run_alone step
drive zero k cs p h =
    let over : ltb k p.call_number ≡ false = ground arith in simp over (refl, omega arith, refl)
drive (suc m) k cs p h =
    let e = ap (run_alone (steps_for m)) (one_round k cs p (omega arith)) in
    let (s, n, l) = drive m (k + 1) (Call.process ∷ cs) p (omega arith) in
    (
      ap (λ r. r.state) e ∙ s,
      ap (λ r. r.processed_calls) e ∙ n,
      ap (λ r. r.calls) e
          ∙ l
          ∙ ap (λ t. Call.unlink_queues ∷ Call.finalize ∷ t) (replicate-snoc m Call.process cs),
    )

started : ℕ → Runner
started n = record (constructed n) { state = running; place = starting }

final_steps : (n : ℕ) → 2 * n + 10 ≡ suc (suc (steps_for n))
final_steps n = omega (arith, steps_for_lem n)

first_steps : (n : ℕ) → step 0 0 (step 0 0 (started (suc n))) ≡ at_head (constructed (suc n)) 0 []
unfolding step started
first_steps n = let more : ltb 0 (suc n) ≡ true = ground arith in rw more

from_start :
    (n : ℕ)
    → let r = run_alone (suc (suc (steps_for n))) (started n) in
      (r.state ≡ finished)
      × (r.calls ≡ Call.unlink_queues ∷ Call.finalize ∷ replicate n Call.process)
unfolding run_alone step started
from_start zero = (refl, refl)
from_start (suc n) =
    let (s, c, l) = drive (suc n) 0 [] (constructed (suc n)) (omega arith) in
    let e = ap (run_alone (steps_for (suc n))) (first_steps n) in
    (
      ap (λ r. r.state) e ∙ s,
      ap (λ r. r.calls) e ∙ l ∙ ap (λ t. Call.unlink_queues ∷ Call.finalize ∷ t) (append-nil _),
    )

-- A postboy that nobody interferes with goes through `Init` and `Run`, makes exactly `callNumber`
-- calls of `Process`, then finalises its processor, unlinks its queues and is Finished, within `2 *
-- callNumber + 10` steps of its thread.
pub completes :
    (n : ℕ)
    → (p q : Runner) × (init (constructed n) ≡ some p)
      × (run p ≡ some q)
      × (let r = run_alone (2 * n + 10) q in
          (r.state ≡ finished)
          × (r.calls ≡ Call.unlink_queues ∷ Call.finalize ∷ replicate n Call.process))
unfolding init run started
completes n = (_, _, refl, refl, rw (final_steps n) (from_start n))
