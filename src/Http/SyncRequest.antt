-- ===== src/Http/SyncRequest.antt =====
-- src/common/http/sync_request.cpp and types.hpp. What the networking library answers to each call is an argument;
-- the calls that were made on each stream, the newest first, and whether they succeeded are kept. An
-- int64_t is its 64 bits.
pub mod Secured
use postboy.Prelude.{
  ℕ, ◌+◌, ◌-◌, ◌^◌, Option, none, some, List, [], ◌∷◌, get_or, ◌==◌, if◌then◌else◌, Bool, true,
  false, not, Bytes, codes,
}
use postboy.Csv.{assign_field}

-- A call on the stream.
pub data Call : Type 0 where
  set_host_name open_socket bind_socket tcp_connect set_linger handshake write_request
        read_response :
      Call

abbrev pub Log : Type 0
Log = List (Call × Bool)

pub data Method : Type 0 where
  unknown post put_method delete_method get : Method

pub record Request : Type 0 where
  pub version : Option ℕ
  pub host_field : Option Bytes
  pub content_type : Option Bytes
  pub has_user_agent : Bool
  pub method : Method
  pub target : Bytes
  pub body : Bytes
  pub payload : Bytes  -- the body that `prepare_payload` saw last

pub record Response : Type 0 where
  pub result_int : ℕ
  pub fields : List (Bytes × Bytes)
  pub text : Bytes

abbrev pub no_response : Response
no_response = record { result_int = 0; fields = []; text = [] }

-- `Result`.
pub record Answer : Type 0 where
  pub code : ℕ
  pub body : Bytes
  pub headers : List (Bytes × Bytes)

pub record SyncRequest : Type 0 where
  pub verb : Bytes
  pub host : Bytes
  pub ip : Bytes
  pub inited : Bool
  pub connected : Bool
  pub request : Request
  pub response : Response
  pub last_result : Answer
  pub stream : Log
  pub closed_streams : List Log

abbrev pub sync_request : Bytes → SyncRequest
sync_request ip = record {
  verb = [];
  host = [];
  ip = ip;
  inited = false;
  connected = false;
  request = record {
    version = none;
    host_field = none;
    content_type = none;
    has_user_agent = false;
    method = unknown;
    target = [];
    body = [];
    payload = [];
  };
  response = no_response;
  last_result = record { code = 0; body = []; headers = [] };
  stream = [];
  closed_streams = [];
}

abbrev pub k_connect_error : ℕ
k_connect_error = 2 ^ 63

abbrev pub k_write_error : ℕ
k_write_error = 2 ^ 63 + 1

abbrev pub k_read_error : ℕ
k_read_error = 2 ^ 63 + 2

abbrev pub k_zero_resp_code : ℕ
k_zero_resp_code = 2 ^ 63 + 3

-- Whether each call of `Connect` succeeds.
pub record Answers : Type 0 where
  pub host_name_set : Bool
  pub resolved : Bool
  pub opened : Bool
  pub bound : Bool
  pub tcp_connected : Bool
  pub linger_set : Bool
  pub shaken : Bool

-- A call, and what follows when it succeeds.
abbrev pub attempt : Call → Bool → (Log → Log × Bool) → Log → Log × Bool
attempt call ok later log =
    let rest = later ((call, true) ∷ log) in if ok then rest else ((call, false) ∷ log, false)

abbrev pub is_set : Bytes → Bool
is_set [] = false
is_set (c ∷ cs) = true

abbrev pub shake_hands : Answers → Log → Log × Bool
shake_hands a = attempt handshake a.shaken (λ log. (log, true))

abbrev pub then_linger : Answers → Log → Log × Bool
then_linger a = attempt set_linger a.linger_set (shake_hands a)

abbrev pub connect_bound : Answers → Log → Log × Bool
connect_bound a = attempt tcp_connect a.tcp_connected (then_linger a)

abbrev pub bind_opened : Answers → Log → Log × Bool
bind_opened a = attempt bind_socket a.bound (connect_bound a)

-- The socket is opened and bound only to a given address.
abbrev pub connect_resolved : Bytes → Answers → Log → Log × Bool
connect_resolved ip a log =
    if is_set ip then attempt open_socket a.opened (bind_opened a) log else connect_bound a log

abbrev pub connect_named : Bytes → Answers → Log → Log × Bool
connect_named ip a log = if a.resolved then connect_resolved ip a log else (log, false)

abbrev pub connect_calls : Bytes → Answers → Log → Log × Bool
connect_calls ip a = attempt set_host_name a.host_name_set (connect_named ip a)

abbrev pub connect_with : Log × Bool → SyncRequest → SyncRequest × Bool
connect_with (log, true) s = (record s { stream = log; connected = true }, true)
connect_with (log, false) s = (record s { stream = log }, false)

unfoldable pub connect : Answers → SyncRequest → SyncRequest × Bool
connect a s = connect_with (connect_calls s.ip a s.stream) s

-- `Shutdown(err)`: another stream takes the place of the one that is closed.
abbrev pub shutdown_err : SyncRequest → SyncRequest
shutdown_err s = record s {
  stream = [];
  closed_streams = s.stream ∷ s.closed_streams;
  connected = false;
}

-- `Shutdown()`, whose test is of a request that is not connected.
unfoldable pub shutdown : SyncRequest → SyncRequest
shutdown s = if not s.connected then shutdown_err s else s

abbrev pub set_result : ℕ → Bytes → SyncRequest → SyncRequest
set_result code body s = record s {
  last_result = record { code = code; body = body; headers = s.last_result.headers };
}

abbrev pub logged : Call → Bool → SyncRequest → SyncRequest
logged call ok s = record s { stream = (call, ok) ∷ s.stream }

abbrev pub verb_at : ℕ → Bytes → ℕ
verb_at i verb = get_or verb i 0

-- 'P', 'O', 'D' and 'G'.
abbrev pub method_of : Bytes → Method → Method
method_of verb old =
    if verb_at 0 verb == 80
    then (if verb_at 1 verb == 79 then post else put_method)
    else if verb_at 0 verb == 68
    then delete_method
    else if verb_at 0 verb == 71
    then get
    else old

-- The fields that are set once, before the first request.
abbrev pub init_request : Bytes → Option Bytes → Request → Request
init_request host content_type r = record r {
  version = some 11;
  host_field = some host;
  content_type = elim content_type [ none ↦ r.content_type | some t ↦ some t ];
  has_user_agent = true;
}

unfoldable pub prepare_request :
    Bytes → Bytes → Option Bytes → Bytes → Bytes → SyncRequest → SyncRequest
prepare_request verb host content_type body path s =
    let filled : Request = record s.request { body = body; payload = body } in
    let ready : Request = if s.inited then filled else init_request host content_type filled in
    record s {
      verb = verb;
      host = host;
      inited = true;
      request = record ready {
        method = method_of verb ready.method;
        target = if is_set path then path else ready.target;
      };
    }

abbrev pub set_target : Bytes → SyncRequest → SyncRequest
set_target target s = record s { request = record s.request { target = target } }

abbrev pub set_body : Bytes → SyncRequest → SyncRequest
set_body body s = record s { request = record s.request { body = body; payload = body } }

abbrev pub set_http_host : Bytes → SyncRequest → SyncRequest
set_http_host host s = record s { host = host }

-- `~SyncRequest`.
abbrev pub destruct : SyncRequest → SyncRequest
destruct s =
    let cleared : SyncRequest = record s { response = no_response } in
    if s.connected then shutdown cleared else cleared

-- `c_text` is what a C string shows that starts where a header's name or value does.
module _ (c_text : Bytes → Bytes) where
  abbrev pub set_headers : List (Bytes × Bytes) → List (Bytes × Bytes) → List (Bytes × Bytes)
  set_headers [] headers = headers
  set_headers (f ∷ fs) headers = set_headers fs (assign_field (c_text f.0) (c_text f.1) headers)

  -- `Response()`.
  abbrev pub respond : SyncRequest → SyncRequest
  respond s =
      if s.response.result_int == 0
      then set_result k_zero_resp_code (codes "Zero response code") s
      else record s {
        last_result = record {
          code = s.response.result_int;
          body = s.response.text;
          headers = set_headers s.response.fields s.last_result.headers;
        };
      }

  -- What `read` gave; a failed one leaves no response here.
  abbrev pub received : Option Response → SyncRequest → SyncRequest
  received none s =
      set_result k_read_error (codes "Error during read")
        (shutdown_err (logged read_response false s))
  received (some r) s = respond (record (logged read_response true s) { response = r })

  abbrev pub exchange : Bool → Option Response → SyncRequest → SyncRequest
  exchange ok r s =
      if ok
      then received r (logged write_request true s)
      else set_result k_write_error (codes "Error during write")
          (shutdown_err (logged write_request false s))

  abbrev pub exchange_on : Bool → Option Response → SyncRequest × Bool → SyncRequest
  exchange_on ok r (s, true) = exchange ok r s
  exchange_on ok r (s, false) = set_result k_connect_error (codes "Error during connection") s

  -- `Send`, by the answers to `Connect`, `write` and `read`.
  unfoldable pub send : Answers → Bool → Option Response → SyncRequest → SyncRequest
  send a ok r s =
      let cleared : SyncRequest = record s { response = no_response } in
      if s.connected then exchange ok r cleared else exchange_on ok r (connect a cleared)
