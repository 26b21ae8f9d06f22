-- ===== src/WebSocket/Tests.antt =====
-- Two clients of one event loop, and a talk of one client.
use postboy.Prelude.{
  ℕ, ◌<◌, ◌≡◌, ◌≢◌, refl, Option, none, some, List, [], ◌∷◌, arith, get_elem?, true, false,
  update_at,
}
use postboy.WebSocket.{
  connecting, connected, Client, client, change_state, Context, Contexts, Outcome, returned,
  connect, finish, on_established,
}
use postboy.WebSocket.Sharing.{Clients, Act, act, is_active, is_allowed, settle, Reach, in_use}
use postboy.WebSocket.Sharing.Counts.{Reach-shared}
use postboy.WebSocket.Messages.{Talk, talk_all}
use postboy.WebSocket.Messages.Outbox.{Ready}
use postboy.WebSocket.Messages.Talks.{Talked, talk_all-Talked}

abbrev nothing : Contexts
nothing l = none

-- Two clients of loop 7 connect, by context 5; the first finishes.
abbrev one_left : Clients
one_left =
    settle 0
      (finish (change_state connecting (record (client 7) { context = some 5 })) (
        update_at (update_at nothing 7 (some (record { context = some 5; clients_count = 1 }))) 7
          (some (record { context = some 5; clients_count = 2 }))))
      (settle 1
        (connect none (client 7)
          (update_at nothing 7 (some (record { context = some 5; clients_count = 1 }))))
        (settle 0 (connect (some 5) (client 7) nothing)
          (record { contexts = nothing; clients = client 7 ∷ client 7 ∷ [] })))

one_left_reached : Reach 2 one_left
unfolding connect finish act
one_left_reached =
    Reach.acts 0 _ Act.finishes _
      (Reach.acts 1 _ (Act.connects none) _
        (Reach.acts 0 _ (Act.connects (some 5)) _ (Reach.creates 7 (Reach.creates 7 Reach.here))
          refl refl refl)
        refl refl refl)
      refl refl refl

Reach-shared_example :
    ((l x : ℕ) (k : Context)
      → one_left.contexts l ≡ some k
      → k.context ≡ some x
      → (k.clients_count ≡ in_use l one_left.clients) × (0 < in_use l one_left.clients))
    × ((i x : ℕ) (c : Client)
        → get_elem? one_left.clients i ≡ some c
        → is_active c ≡ true
        → c.context ≡ some x
        → (k : Context) × (one_left.contexts c.ev_loop ≡ some k) × (k.context ≡ some x))
    × ((i : ℕ) (c : Client) (a : Act)
        → get_elem? one_left.clients i ≡ some c
        → is_allowed a c ≡ true
        → act 2 a c one_left.contexts ≢ some Outcome.aborted)
Reach-shared_example = Reach-shared one_left_reached

-- A client that connects behind the last one's finish gets no context.
abbrev connected_again : Outcome
connected_again =
    connect (some 6) (client 7) (λ l. some (record { context = none; clients_count = 0 }))

abbrev its_context : Outcome → Option (Option ℕ)
its_context (returned (some c) contexts) = some c.context
its_context _ = none

no_context : its_context connected_again ≡ some none
unfolding connect
no_context = refl

-- A client that finished before its connection was established counts as connected behind the event.
finished_connected : (on_established (client 7)).state ≡ connected
unfolding on_established
finished_connected = refl

-- Two messages with two bytes of room; the second, which is cut at its zero byte, waits, and one fragment more than a message has come.
abbrev talks : List Talk
talks =
    Talk.establishes
    ∷ Talk.sends (1 ∷ 1 ∷ 9 ∷ [])
    ∷ Talk.receives (1 ∷ []) false
    ∷ Talk.sends (1 ∷ 1 ∷ 8 ∷ 0 ∷ 7 ∷ [])
    ∷ Talk.receives (2 ∷ []) true
    ∷ Talk.writes (some 1)
    ∷ Talk.receives (3 ∷ []) false
    ∷ []

abbrev begun : Client
begun = change_state connecting (client 7)

begun_ready : Ready 2 begun
begun_ready = record { padded = tt; announced = λ _ w. absurd (cc w); active = refl }

talk_all-Talked_example : (d : Client) × (talk_all 2 talks begun ≡ some d) × Talked 2 begun talks d
talk_all-Talked_example = talk_all-Talked 2 talks begun (omega arith, (omega arith, tt)) begun_ready
