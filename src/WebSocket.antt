-- ===== src/WebSocket.antt =====
-- src/websocket/client.cpp: clients of WebSocket servers, and the contexts that the clients of one event loop
-- share. What libwebsockets answers is an argument of each operation: the context that it made, whether it
-- connected, whether another attempt is planned, how much it wrote. A context is a number and null is none.
pub mod Sharing
pub mod Messages
mod Tests
use postboy.Prelude.{
  ℕ, ◌+◌, ◌-◌, Option, none, some, List, [], ◌∷◌, ◌++◌, length, drop, ltb, ◌==◌, if◌then◌else◌,
  Bool, true, false, ◌||◌, Bytes, c_string, update_at,
}

pub data State : Type 0 where
  not_connected connecting reconnecting connected closing_connection : State

-- The values of the enum, which the code compares.
abbrev pub rank : State → ℕ
rank not_connected = 0
rank connecting = 1
rank reconnecting = 2
rank connected = 3
rank closing_connection = 4

abbrev pub state_is : State → State → Bool
state_is a b = rank a == rank b

-- The members, and what went through them: the calls of `onReceive_` and `onStateChange_`, what was given to
-- `lws_write`, and whether `lws_callback_on_writable` was called and not answered yet.
pub record Client : Type 0 where
  pub ev_loop : ℕ
  pub state : State
  pub msgs_to_send : List Bytes
  pub buffer : Bytes
  pub context : Option ℕ
  pub received : List Bytes
  pub changes : List State
  pub written : List Bytes
  pub writable_asked : Bool

abbrev pub client : ℕ → Client
client ev_loop = record {
  ev_loop = ev_loop;
  state = not_connected;
  msgs_to_send = [];
  buffer = [];
  context = none;
  received = [];
  changes = [];
  written = [];
  writable_asked = false;
}

abbrev pub change_state : State → Client → Client
change_state s c = record c { state = s; changes = c.changes ++ (s ∷ []) }

abbrev pub ask_writable : Client → Client
ask_writable c = record c { writable_asked = true }

unfoldable pub close : Client → Client
close c =
    if state_is c.state closing_connection || state_is c.state not_connected
    then c
    else ask_writable (change_state closing_connection c)

abbrev pub no_messages : List Bytes → Bool
no_messages [] = true
no_messages (m ∷ ms) = false

-- The message is pushed as a C string. The writable callback is asked for only when nothing waited.
unfoldable pub send : Bytes → Client → Client
send message c =
    let pushed : Client = record c { msgs_to_send = c.msgs_to_send ++ (c_string message ∷ []) } in
    if no_messages c.msgs_to_send then ask_writable pushed else pushed

-- LWS_CALLBACK_CLIENT_RECEIVE.
unfoldable pub on_receive : Bytes → Bool → Client → Client
on_receive fragment final c =
    if final
    then record c { received = c.received ++ ((c.buffer ++ fragment) ∷ []); buffer = [] }
    else record c { buffer = c.buffer ++ fragment }

-- LWS_CALLBACK_CLIENT_ESTABLISHED.
unfoldable pub on_established : Client → Client
on_established c = if ltb (rank c.state) (rank connected) then change_state connected c else c

-- What the callback returns: -1, which closes the connection, or what the library's dummy gives.
pub data Answer : Type 0 where
  minus_one dummy : Answer

-- `written < len`, where a failed write gave a negative number.
abbrev pub short_write : Option ℕ → ℕ → Bool
short_write none len = true
short_write (some n) len = ltb n len

module _ (lws_pre : ℕ) where
  abbrev pub write_front : Option ℕ → Bytes → List Bytes → Client → Client × Answer
  write_front amount front others c =
      let sent : Client = record c {
        msgs_to_send = others;
        written = c.written ++ (drop lws_pre front ∷ []);
      } in
      if short_write amount (length front - lws_pre)
      then (close sent, minus_one)
      else (if no_messages others then sent else ask_writable sent, dummy)

  -- The front message has at least LWS_PRE bytes; none where it has fewer, and the code reads beyond it.
  abbrev pub write_first : Option ℕ → List Bytes → Client → Option (Client × Answer)
  write_first amount [] c = some (c, dummy)
  write_first amount (front ∷ others) c =
      if ltb (length front) lws_pre then none else some (write_front amount front others c)

  -- LWS_CALLBACK_CLIENT_WRITEABLE, which answers what was asked for.
  unfoldable pub on_writeable : Option ℕ → Client → Option (Client × Answer)
  on_writeable amount c =
      let answered : Client = record c { writable_asked = false } in
      if state_is c.state closing_connection
      then some (answered, minus_one)
      else write_first amount c.msgs_to_send answered

-- What a client and the contexts come to; a failed ENSURE throws, and a failed ASSERT ends the program. There is
-- no client any more behind its destructor.
pub record Context : Type 0 where
  pub context : Option ℕ
  pub clients_count : ℕ

abbrev pub Contexts : Type 0
Contexts = ℕ → Option Context

pub data Outcome : Type 0 where
  returned : Option Client → Contexts → Outcome
  threw : Client → Contexts → Outcome
  aborted : Outcome

abbrev pub put_context : ℕ → Option ℕ → ℕ → Contexts → Contexts
put_context l x n contexts = update_at contexts l (some (record { context = x; clients_count = n }))

abbrev pub connecting_with : Option ℕ → Client → Client
connecting_with x c = change_state connecting (record c { context = x })

-- `Connect` behind its check, by what `try_emplace` found; `made` is what `lws_create_context` gives.
abbrev pub connect_in : Option ℕ → Client → Contexts → Option Context → Outcome
connect_in none c contexts none = threw c (put_context c.ev_loop none 1 contexts)
connect_in (some x) c contexts none =
    returned (some (connecting_with (some x) c)) (put_context c.ev_loop (some x) 1 contexts)
connect_in made c contexts (some k) =
    returned (some (connecting_with k.context c))
      (put_context c.ev_loop k.context (k.clients_count + 1) contexts)

unfoldable pub connect : Option ℕ → Client → Contexts → Outcome
connect made c contexts =
    if state_is c.state not_connected
    then connect_in made c contexts (contexts c.ev_loop)
    else threw c contexts

abbrev pub retry : Bool → Client → Contexts → Option Context → Outcome
retry exhausted c contexts none = aborted
retry exhausted c contexts (some k) = returned (some (if exhausted then close c else c)) contexts

unfoldable pub connect_impl : Bool → Bool → Client → Contexts → Outcome
connect_impl success exhausted c contexts =
    if success then returned (some c) contexts else retry exhausted c contexts (contexts c.ev_loop)

-- The count behind `--`, and `lws_context_destroy` when it is zero.
abbrev pub released : Context → Context
released k = record {
  context = if k.clients_count - 1 == 0 then none else k.context;
  clients_count = k.clients_count - 1;
}

abbrev pub reset_in : Option Client → ℕ → Contexts → Option Context → Outcome
reset_in after l contexts none = aborted
reset_in after l contexts (some k) =
    if k.clients_count == 0
    then aborted
    else returned after (update_at contexts l (some (released k)))

abbrev pub reset_context : Option Client → ℕ → Contexts → Outcome
reset_context after l contexts = reset_in after l contexts (contexts l)

unfoldable pub finish : Client → Contexts → Outcome
finish c contexts =
    if state_is c.state not_connected
    then returned (some c) contexts
    else reset_context (some (change_state not_connected c)) c.ev_loop contexts

-- `~Client`.
unfoldable pub destroy : Client → Contexts → Outcome
destroy c contexts =
    if state_is c.state not_connected
    then returned none contexts
    else reset_context none c.ev_loop contexts

-- `OnEventImpl`, with what libwebsockets says of the event.
pub data Event : Type 0 where
  client_closed connection_error : Bool → Bool → Event
  receive : Bytes → Bool → Event
  established : Event
  writeable : Option ℕ → Event
  other_reason : Event

abbrev pub settled : Contexts → Client × Answer → Outcome × Answer
settled contexts (c, a) = (returned (some c) contexts, a)

abbrev pub settled_if : Contexts → Option (Client × Answer) → Option (Outcome × Answer)
settled_if contexts none = none
settled_if contexts (some r) = some (settled contexts r)

unfoldable pub on_event : ℕ → Event → Client → Contexts → Option (Outcome × Answer)
on_event lws_pre (client_closed success exhausted) c contexts =
    some (connect_impl success exhausted c contexts, dummy)
on_event lws_pre (connection_error success exhausted) c contexts =
    some (connect_impl success exhausted c contexts, dummy)
on_event lws_pre (receive fragment final) c contexts =
    some (settled contexts (on_receive fragment final c, dummy))
on_event lws_pre established c contexts = some (settled contexts (on_established c, dummy))
on_event lws_pre (writeable amount) c contexts = settled_if contexts (on_writeable lws_pre amount c)
on_event lws_pre other_reason c contexts = some (settled contexts (c, dummy))
