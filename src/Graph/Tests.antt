-- ===== src/Graph/Tests.antt =====
-- The graph's theorems at one processor of two outputs and two queues.
use postboy.Prelude.{ℕ, zero, suc, subst, ◌≡◌, refl, none, some, List, [], ◌∷◌, true, set}
use postboy.Graph.Queues.{spsc, mpmc, Queue, Queues, Port, valid}
use postboy.Graph.Processor.{Processor, is_valid, all_valid, link_output_queue, unlink_queues}
use postboy.Graph.Producers.{
  OnOk, BalancedProcessor, Released, link_output_queue-Balanced, unlink_queues-Released,
}
use postboy.Graph.Success.{one_more_producer, link_output_queue_success, unlink_queues-success}

-- The first output holds queue 0, which a port elsewhere holds too; queue 1 is new.
abbrev shared_queue : Queue
shared_queue = record { kind = mpmc; element = 4; active_producers = 2 }

abbrev new_queue : Queue
new_queue = record { kind = spsc; element = 5; active_producers = 0 }

abbrev queues : Queues
queues = shared_queue ∷ new_queue ∷ []

abbrev outputs : List Port
outputs = record { element = 4; impl = some 0 } ∷ record { element = 5; impl = none } ∷ []

abbrev source : Processor
source = record { inputs = none; outputs = some outputs }

abbrev elsewhere : ℕ → ℕ
elsewhere zero = 1
elsewhere (suc address) = 0

source_balanced : BalancedProcessor elsewhere source queues
source_balanced zero q found =
    let same : shared_queue ≡ q = cc found in subst (λ x. x.active_producers ≡ 2) same refl
source_balanced (suc zero) q found =
    let same : new_queue ≡ q = cc found in subst (λ x. x.active_producers ≡ 0) same refl
source_balanced (suc (suc address)) q found = absurd (cc found)

link_output_queue-Balanced_example :
    OnOk (BalancedProcessor elsewhere) (link_output_queue source 1 queues (some 1))
link_output_queue-Balanced_example =
    link_output_queue-Balanced elsewhere source 1 queues (some 1) source_balanced

link_output_queue_success_example : link_output_queue source 1 queues (some 1) ≡ (
  record { inputs = none; outputs = some (set outputs 1 (record { element = 5; impl = some 1 })) },
  set queues 1 (one_more_producer new_queue),
  none,
)
link_output_queue_success_example =
    link_output_queue_success none outputs 1 queues 1 (record { element = 5; impl = none })
      new_queue refl refl refl refl refl

-- The processor with its first output alone.
abbrev small_source : Processor
small_source = record { inputs = none; outputs = some (record { element = 4; impl = some 0 } ∷ []) }

small_balanced : BalancedProcessor elsewhere small_source queues
small_balanced zero q found = source_balanced zero q found
small_balanced (suc zero) q found = source_balanced 1 q found
small_balanced (suc (suc address)) q found = absurd (cc found)

small_valid : is_valid small_source ≡ true
unfolding is_valid all_valid valid
small_valid = refl

unlink_queues-Released_example : OnOk (Released elsewhere) (unlink_queues small_source queues)
unlink_queues-Released_example =
    unlink_queues-Released elsewhere small_source queues small_valid small_balanced

unlink_queues-success_example : (unlink_queues small_source queues).2 ≡ none
unlink_queues-success_example =
    unlink_queues-success small_source queues ((shared_queue, refl, refl), tt)
