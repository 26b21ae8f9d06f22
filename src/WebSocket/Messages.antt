-- ===== src/WebSocket/Messages.antt =====
-- src/websocket/client.cpp: what one client receives and sends, while its connection lasts.
pub mod Outbox
pub mod Talks
use postboy.Prelude.{
  ℕ, ◌+◌, ◌≤◌, Option, none, some, List, [], ◌∷◌, ◌++◌, length, Bool, true, false, Bytes, c_string,
}
use postboy.WebSocket.{Client, close, send, on_receive, on_established, Answer, on_writeable}

pub data Talk : Type 0 where
  sends : Bytes → Talk
  receives : Bytes → Bool → Talk
  writes : Option ℕ → Talk
  establishes closes : Talk

abbrev pub without_answer : Option (Client × Answer) → Option Client
without_answer none = none
without_answer (some r) = some r.0

abbrev pub talk : ℕ → Talk → Client → Option Client
talk lws_pre (sends m) c = some (send m c)
talk lws_pre (receives fragment final) c = some (on_receive fragment final c)
talk lws_pre (writes amount) c = without_answer (on_writeable lws_pre amount c)
talk lws_pre establishes c = some (on_established c)
talk lws_pre closes c = some (close c)

unfoldable pub talk_all : ℕ → List Talk → Client → Option Client
talk_all lws_pre [] c = some c
talk_all lws_pre (t ∷ ts) c = elim (talk lws_pre t c) [
  | none ↦ none
  | some d ↦ talk_all lws_pre ts d
]

-- What was sent, each message as a C string, and every message of it with its room in front.
abbrev pub sent : List Talk → List Bytes
sent [] = []
sent (sends m ∷ ts) = c_string m ∷ sent ts
sent (receives _ _ ∷ ts) = sent ts
sent (writes _ ∷ ts) = sent ts
sent (establishes ∷ ts) = sent ts
sent (closes ∷ ts) = sent ts

abbrev pub AllPadded : ℕ → List Bytes → Type 0
AllPadded lws_pre [] = Unit {0}
AllPadded lws_pre (m ∷ ms) = (lws_pre ≤ length m) × AllPadded lws_pre ms

-- The messages of a sequence of fragments, and what is left of one that has not ended.
abbrev pub onto_first : Bytes → List Bytes × Bytes → List Bytes × Bytes
onto_first fragment ([], rest) = ([], fragment ++ rest)
onto_first fragment (m ∷ ms, rest) = ((fragment ++ m) ∷ ms, rest)

abbrev pub messages_of : List Talk → List Bytes × Bytes
messages_of [] = ([], [])
messages_of (receives fragment true ∷ ts) = let r = messages_of ts in (fragment ∷ r.0, r.1)
messages_of (receives fragment false ∷ ts) = onto_first fragment (messages_of ts)
messages_of (sends _ ∷ ts) = messages_of ts
messages_of (writes _ ∷ ts) = messages_of ts
messages_of (establishes ∷ ts) = messages_of ts
messages_of (closes ∷ ts) = messages_of ts
