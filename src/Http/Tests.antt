-- ===== src/Http/Tests.antt =====
-- Requests whose connection fails first, and one whose socket cannot be opened.
use postboy.Prelude.{
  ℕ, ◌≡◌, refl, none, some, List, [], ◌∷◌, length, ◌==◌, true, false, Bytes, codes,
}
use postboy.Http.SyncRequest.{SyncRequest, sync_request, Answers, Response, send, shutdown}
use postboy.Http.SyncRequest.Secured.{
  Operation, ConnectsApart, perform_all, perform_all-Secured, IsValid, AllValid, IsSecured,
}
use postboy.Http.AsyncRequest.{Pending, AsyncRequest, Completion, write, complete_all}
use postboy.Http.AsyncRequest.Answered.{AnsweredOnce, write-AnsweredOnce}

abbrev same_text : Bytes → Bytes
same_text t = t

abbrev all_succeed : Answers
all_succeed = record {
  host_name_set = true;
  resolved = true;
  opened = true;
  bound = true;
  tcp_connected = true;
  linger_set = true;
  shaken = true;
}

abbrev a_response : Response
a_response = record { result_int = 200; fields = (codes "Age", codes "1") ∷ []; text = codes "ok" }

-- A connection and a handshake that fail, a request whose response cannot be read, and one that succeeds.
abbrev operations : List Operation
operations =
    Operation.prepares (codes "GET") (codes "host") none [] (codes "/")
    ∷ Operation.connects (record all_succeed { tcp_connected = false })
    ∷ Operation.sends (record all_succeed { shaken = false }) true (some a_response)
    ∷ Operation.sends all_succeed true none
    ∷ Operation.sends all_succeed true (some a_response)
    ∷ Operation.shuts_down
    ∷ []

abbrev performed : SyncRequest
performed = perform_all same_text operations (sync_request (codes "1"))

still_connected :
    (performed.connected ≡ true)
    × (performed.last_result.code ≡ 200)
    × (length performed.closed_streams ≡ 1)
unfolding postboy.Http.SyncRequest.prepare_request send postboy.Http.SyncRequest.connect shutdown
still_connected = (refl, refl, refl)

connects_apart : ConnectsApart same_text operations (sync_request (codes "1"))
unfolding postboy.Http.SyncRequest.prepare_request
connects_apart = (tt, (refl, (tt, (tt, (tt, (tt, tt))))))

perform_all-Secured_example :
    IsValid performed.stream
    × AllValid performed.closed_streams
    × (performed.connected ≡ true → IsSecured performed.stream)
perform_all-Secured_example = perform_all-Secured same_text operations (codes "1") connects_apart

abbrev an_async : Bytes → AsyncRequest
an_async ip = record {
  ip = ip;
  connected = false;
  cb = true;
  callback_disabled = false;
  pending = Pending.idle;
  answered = [];
}

-- The handshake, which is the third completion, fails.
abbrev third_fails : ℕ → Completion
third_fails k = record { failed = k == 2; opened = true; bound = true; result_int = 200 }

write-AnsweredOnce_example :
    AnsweredOnce (an_async []) (complete_all 5 third_fails (write true (an_async [])))
write-AnsweredOnce_example =
    write-AnsweredOnce 0 third_fails true (an_async []) refl refl refl (λ e. absurd (cc e))

-- Where the socket can be neither opened nor bound, one request is answered three times.
abbrev not_opened : ℕ → Completion
not_opened k = record { failed = false; opened = false; bound = false; result_int = 200 }

answered_again : length (complete_all 5 not_opened (write true (an_async (codes "1")))).answered ≡ 3
unfolding complete_all write postboy.Http.AsyncRequest.on_resolve
    postboy.Http.AsyncRequest.on_connect postboy.Http.AsyncRequest.on_handshake
    postboy.Http.AsyncRequest.on_write postboy.Http.AsyncRequest.on_read
    postboy.Http.AsyncRequest.callback_result
answered_again = refl
