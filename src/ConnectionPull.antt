-- ===== src/ConnectionPull.antt =====
-- src/common/http/connection_pull.cpp: a pool of connections on two stacks, with one access to shared memory
-- a step. A connection is a number; Pop and Push of one stack are each a step on the sequence of its nodes.
pub mod Places
pub mod Bound
mod Tests
use postboy.Prelude.{
  ℕ, zero, suc, ◌+◌, ◌≡◌, Option, none, some, List, [], ◌∷◌, ltb, ◌==◌, if◌then◌else◌, update_at,
}

-- Where an agent stands: outside, in `Pop`'s rounds, before the load of the number of connections, before the
-- exchange that expects it, or with a connection in hand.
pub data Agent : Type 0 where
  outside loading : Agent
  at_first at_second : ℕ → Agent
  comparing : ℕ → Agent
  holding : ℕ → Agent

-- The stacks that the two pointers lead to; `next_connection` is the one that `createConnection_` gives next.
pub record ConnectionPull : Type 0 where
  pub first : List ℕ
  pub second : List ℕ
  pub connections_cnt : ℕ
  pub max_connections_cnt : ℕ
  pub next_connection : ℕ
  pub agents : ℕ → Agent

-- The constructor's loop.
abbrev pub created : ℕ → List ℕ
created zero = []
created (suc n) = n ∷ created n

abbrev pub new_pool : ℕ → ℕ → ConnectionPull
new_pool init_connections_cnt max_connections_cnt = record {
  first = created init_connections_cnt;
  second = [];
  connections_cnt = init_connections_cnt;
  max_connections_cnt = max_connections_cnt;
  next_connection = init_connections_cnt;
  agents = λ _. outside;
}

-- The constructor, where `createConnection` is set and no number is negative; none is a failed VERIFY.
unfoldable pub connection_pull : ℕ → ℕ → Option ConnectionPull
connection_pull init_connections_cnt max_connections_cnt =
    if max_connections_cnt == 0
    then none
    else if ltb max_connections_cnt init_connections_cnt
    then none
    else some (new_pool init_connections_cnt max_connections_cnt)

abbrev pub go : ℕ → Agent → ConnectionPull → ConnectionPull
go i a s = record s { agents = update_at s.agents i a }

-- `Pop` of the first stack, or of the second; on an empty stack the agent goes on.
abbrev pub pop_first : ℕ → Agent → List ℕ → ConnectionPull → ConnectionPull
pop_first i otherwise [] s = go i otherwise s
pop_first i otherwise (c ∷ cs) s = record (go i (holding c) s) { first = cs }

abbrev pub pop_second : ℕ → Agent → List ℕ → ConnectionPull → ConnectionPull
pop_second i otherwise [] s = go i otherwise s
pop_second i otherwise (c ∷ cs) s = record (go i (holding c) s) { second = cs }

-- Behind the third round the loop ends.
abbrev pub next_round : ℕ → Agent
next_round round = if round == 2 then loading else at_first (round + 1)

-- The condition of the second loop, on a value just read; `Pop` gives null when it fails.
abbrev pub counted : ℕ → ConnectionPull → Agent
counted amount s = if ltb amount s.max_connections_cnt then comparing amount else outside

-- `compare_exchange_strong`, and the new connection when it succeeds.
abbrev pub compare_count : ℕ → ℕ → ConnectionPull → ConnectionPull
compare_count i amount s =
    if s.connections_cnt == amount
    then record (go i (holding s.next_connection) s) {
      connections_cnt = s.connections_cnt + 1;
      next_connection = s.next_connection + 1;
    }
    else go i (counted s.connections_cnt s) s

-- `Push`, in the end: onto the second stack.
abbrev pub push : ℕ → ℕ → ConnectionPull → ConnectionPull
push i c s = record (go i outside s) { second = c ∷ s.second }

-- A forced reconnection: a thread of its own takes the connection over, until it is connected.
abbrev pub hand_over : ℕ → ℕ → ℕ → ConnectionPull → ConnectionPull
hand_over i j c s = record s { agents = update_at (update_at s.agents i outside) j (holding c) }

-- `stackPtrs_.Exchange()`.
abbrev pub exchange_stacks : ConnectionPull → ConnectionPull
exchange_stacks s = record s { first = s.second; second = s.first }

-- Callers and the pinger, which pops the first stack once a time, pushes and exchanges.
pub data Step (s : ConnectionPull) : ConnectionPull → Type 0 where
  begins : (i : ℕ) → s.agents i ≡ outside → Step s (go i (at_first 0) s)
  pops_first :
      (i round : ℕ) → s.agents i ≡ at_first round → Step s (pop_first i (at_second round) s.first s)
  pops_second :
      (i round : ℕ)
      → s.agents i ≡ at_second round
      → Step s (pop_second i (next_round round) s.second s)
  loads : (i : ℕ) → s.agents i ≡ loading → Step s (go i (counted s.connections_cnt s) s)
  compares : (i amount : ℕ) → s.agents i ≡ comparing amount → Step s (compare_count i amount s)
  pings : (i : ℕ) → s.agents i ≡ outside → Step s (pop_first i outside s.first s)
  pushes : (i c : ℕ) → s.agents i ≡ holding c → Step s (push i c s)
  hands_over :
      (i j c : ℕ) → s.agents i ≡ holding c → s.agents j ≡ outside → Step s (hand_over i j c s)
  exchanges : Step s (exchange_stacks s)

pub data Reach (start : ConnectionPull) : ConnectionPull → Type 0 where
  here : Reach start start
  next : {s t : ConnectionPull} → Reach start s → Step s t → Reach start t
