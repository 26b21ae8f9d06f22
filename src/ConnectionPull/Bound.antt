-- ===== src/ConnectionPull/Bound.antt =====
-- The pool loses no connection, gives none twice and makes no more than its bound.
use postboy.Prelude.{ℕ, ◌≤◌, ◌<◌, ◌≡◌, ◌≢◌}
use postboy.ConnectionPull.{Agent, comparing, ConnectionPull}
use postboy.ConnectionPull.Places.{Idle, Placed}

pub record Inv (s : ConnectionPull) : Type 0 where
  pub placed : Placed s
  pub all_counted : s.connections_cnt ≡ s.next_connection
  pub bounded : s.connections_cnt ≤ s.max_connections_cnt
  pub expected_below :
      (i amount : ℕ) → s.agents i ≡ comparing amount → amount < s.max_connections_cnt

-- A place that is neither a connection in hand nor an expected number.
abbrev Plain : Agent → Type 0
Plain a = Idle a × ((amount : ℕ) → a ≢ comparing amount)
