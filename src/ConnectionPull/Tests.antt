-- ===== src/ConnectionPull/Tests.antt =====
-- A pool of at most two connections, one at first, and two callers.
use postboy.Prelude.{[], ◌∷◌}
use postboy.ConnectionPull.{
  at_first, at_second, ConnectionPull, new_pool, go, pop_first, push, exchange_stacks,
}

abbrev start : ConnectionPull
start = new_pool 1 2

-- The first caller gets the connection and pushes it, the pinger exchanges the stacks, the second caller gets it.
abbrev passed_on : ConnectionPull
passed_on = pop_first 1 (at_second 0) (0 ∷ []) (
    go 1 (at_first 0)
      (exchange_stacks (push 0 0 (pop_first 0 (at_second 0) (0 ∷ []) (go 0 (at_first 0) start)))))
