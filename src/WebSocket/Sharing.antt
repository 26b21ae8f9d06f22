-- ===== src/WebSocket/Sharing.antt =====
-- src/websocket/client.cpp: any number of clients, whose calls and events come in any order.
pub mod Effects
pub mod Calls
pub mod Uses
pub mod Invariant
pub mod Moves
pub mod Counts
use postboy.Prelude.{
  ℕ, zero, suc, ◌+◌, ◌≡◌, Option, none, some, List, [], ◌∷◌, ◌++◌, get_elem?, set, ◌==◌,
  if◌then◌else◌, Bool, true, not, ◌&&◌, Bytes,
}
use postboy.WebSocket.{
  not_connected, state_is, Client, client, close, send, Contexts, Outcome, returned, threw, aborted,
  connect, connect_impl, finish, destroy, Event, Answer, on_event,
}

pub record Clients : Type 0 where
  pub contexts : Contexts
  pub clients : List Client

-- What is called: a client's public functions, its destructor, its timer and its events.
pub data Act : Type 0 where
  connects : Option ℕ → Act
  times_out : Bool → Bool → Act
  happens : Event → Act
  sends : Bytes → Act
  closes finishes destroys : Act

abbrev pub outcome_of : Option (Outcome × Answer) → Option Outcome
outcome_of none = none
outcome_of (some r) = some r.0

-- None where the code reads beyond a message.
unfoldable pub act : ℕ → Act → Client → Contexts → Option Outcome
act lws_pre (connects made) c contexts = some (connect made c contexts)
act lws_pre (times_out success exhausted) c contexts =
    some (connect_impl success exhausted c contexts)
act lws_pre (happens e) c contexts = outcome_of (on_event lws_pre e c contexts)
act lws_pre (sends message) c contexts = some (returned (some (send message c)) contexts)
act lws_pre closes c contexts = some (returned (some (close c)) contexts)
act lws_pre finishes c contexts = some (finish c contexts)
act lws_pre destroys c contexts = some (destroy c contexts)

abbrev pub is_active : Client → Bool
is_active c = not (state_is c.state not_connected)

-- The library's timers and events come to clients that are connected or about to be.
abbrev pub is_allowed : Act → Client → Bool
is_allowed (times_out _ _) c = is_active c
is_allowed (happens _) c = is_active c
is_allowed _ c = true

abbrev pub remove_at : ℕ → List Client → List Client
remove_at i [] = []
remove_at zero (c ∷ cs) = cs
remove_at (suc i) (c ∷ cs) = c ∷ remove_at i cs

abbrev pub settle : ℕ → Outcome → Clients → Clients
settle i (returned none contexts) w = record {
  contexts = contexts;
  clients = remove_at i w.clients;
}
settle i (returned (some c) contexts) w = record {
  contexts = contexts;
  clients = set w.clients i c;
}
settle i (threw c contexts) w = record { contexts = contexts; clients = set w.clients i c }
settle i aborted w = w

pub data Reach (lws_pre : ℕ) : Clients → Type 0 where
  here : Reach lws_pre (record { contexts = λ _. none; clients = [] })
  creates :
      {w : Clients} (l : ℕ)
      → Reach lws_pre w
      → Reach lws_pre (record { contexts = w.contexts; clients = w.clients ++ (client l ∷ []) })
  acts :
      {w : Clients} (i : ℕ) (c : Client) (a : Act) (o : Outcome)
      → Reach lws_pre w
      → get_elem? w.clients i ≡ some c
      → is_allowed a c ≡ true
      → act lws_pre a c w.contexts ≡ some o
      → Reach lws_pre (settle i o w)

-- How many clients use the context of a loop.
abbrev pub uses : ℕ → Client → ℕ
uses l c = if c.ev_loop == l && is_active c then 1 else 0

abbrev pub in_use : ℕ → List Client → ℕ
in_use l [] = 0
in_use l (c ∷ cs) = uses l c + in_use l cs
