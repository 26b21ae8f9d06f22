-- ===== src/Concurrency/Spinlock/Tests.antt =====
-- Two threads at one lock.
use postboy.Prelude.{ℕ, ◌≡◌, refl, ◌↔◌, true}
use postboy.Concurrency.Spinlock.{Thread, Spinlock, start, at, exchange, spin, Step, Reach}
use postboy.Concurrency.Spinlock.Exclusion.{Reach-exclusive}

-- The second thread's exchange comes behind the first one's, and it reads on.
abbrev contended : Spinlock
contended = spin 1 (
    exchange 1 Thread.spinning
      (exchange 0 Thread.spinning (at 1 Thread.exchanging (at 0 Thread.exchanging start))))

contended_reached : Reach contended
contended_reached =
    Reach.next
      (Reach.next
        (Reach.next (Reach.next (Reach.next Reach.here (Step.locks 0 refl)) (Step.locks 1 refl))
          (Step.exchanges 0 refl))
        (Step.exchanges 1 refl))
      (Step.spins 1 refl)

Reach-exclusive_example :
    ((i j : ℕ)
      → contended.threads i ≡ Thread.holding
      → contended.threads j ≡ Thread.holding
      → i ≡ j)
    × ((contended.locked ≡ true) ↔ ((i : ℕ) × (contended.threads i ≡ Thread.holding)))
Reach-exclusive_example = Reach-exclusive contended_reached
