-- ===== src/Http/AsyncRequest.antt =====
-- src/common/http/async_request.cpp: a request whose operations the networking library completes later. What it
-- then says is an argument. The codes that the callback was given are kept; a callback that itself writes is not
-- covered.
pub mod Answered
use postboy.Prelude.{
  ℕ, zero, suc, ◌+◌, List, [], ◌∷◌, ◌++◌, ◌==◌, if◌then◌else◌, Bool, true, false, not, Bytes,
}
use postboy.Http.SyncRequest.{
  is_set, k_connect_error, k_write_error, k_read_error, k_zero_resp_code,
}

-- The operation that the library will complete.
pub data Pending : Type 0 where
  idle resolving connecting handshaking writing reading : Pending

pub record AsyncRequest : Type 0 where
  pub ip : Bytes
  pub connected : Bool
  pub cb : Bool
  pub callback_disabled : Bool
  pub pending : Pending
  pub answered : List ℕ

-- What the library says on a completion: whether it failed, whether the socket is opened and bound when
-- `OnResolve` asks for it, and the response's code.
pub record Completion : Type 0 where
  pub failed : Bool
  pub opened : Bool
  pub bound : Bool
  pub result_int : ℕ

-- `given` says whether the function is there.
abbrev pub set_callback : Bool → AsyncRequest → AsyncRequest
set_callback given s = record s { cb = given; callback_disabled = false }

abbrev pub reset_callback : AsyncRequest → AsyncRequest
reset_callback s = record s { callback_disabled = true }

-- `CallbackResult`; `nowUse_` is set around the callback and shows nowhere else here.
unfoldable pub callback_result : ℕ → AsyncRequest → AsyncRequest
callback_result code s =
    if s.callback_disabled
    then s
    else if s.cb
    then record s { answered = s.answered ++ (code ∷ []) }
    else s

abbrev pub await : Pending → AsyncRequest → AsyncRequest
await p s = record s { pending = p }

abbrev pub connect : Bool → AsyncRequest → AsyncRequest
connect host_name_set s =
    if host_name_set then await resolving s else callback_result k_connect_error s

unfoldable pub write : Bool → AsyncRequest → AsyncRequest
write host_name_set s =
    if not s.cb then s else if not s.connected then connect host_name_set s else await writing s

-- The socket's opening and binding; each failure is told to the callback, and the code goes on.
abbrev pub told : Bool → AsyncRequest → AsyncRequest
told ok s = if ok then s else callback_result k_connect_error s

abbrev pub bind_to : Completion → AsyncRequest → AsyncRequest
bind_to c s = if is_set s.ip then told c.bound (told c.opened s) else s

-- A failed operation ends the request with a code.
abbrev pub unless_failed : Completion → ℕ → AsyncRequest → AsyncRequest → AsyncRequest
unless_failed c code s next = if c.failed then callback_result code (await idle s) else next

unfoldable pub on_resolve : Completion → AsyncRequest → AsyncRequest
on_resolve c s = unless_failed c k_connect_error s (await connecting (bind_to c s))

unfoldable pub on_connect : Completion → AsyncRequest → AsyncRequest
on_connect c s = unless_failed c k_connect_error s (await handshaking s)

unfoldable pub on_handshake : Completion → AsyncRequest → AsyncRequest
on_handshake c s = unless_failed c k_connect_error s (await writing (record s { connected = true }))

unfoldable pub on_write : Completion → AsyncRequest → AsyncRequest
on_write c s = unless_failed c k_write_error s (await reading s)

abbrev pub response_code : ℕ → ℕ
response_code result_int = if result_int == 0 then k_zero_resp_code else result_int

unfoldable pub on_read : Completion → AsyncRequest → AsyncRequest
on_read c s =
    unless_failed c k_read_error s (callback_result (response_code c.result_int) (await idle s))

abbrev pub complete_at : Pending → Completion → AsyncRequest → AsyncRequest
complete_at idle c s = s
complete_at resolving c s = on_resolve c s
complete_at connecting c s = on_connect c s
complete_at handshaking c s = on_handshake c s
complete_at writing c s = on_write c s
complete_at reading c s = on_read c s

-- The completion of what is pending, and a number of them.
abbrev pub complete : Completion → AsyncRequest → AsyncRequest
complete c s = complete_at s.pending c s

unfoldable pub complete_all : ℕ → (ℕ → Completion) → AsyncRequest → AsyncRequest
complete_all zero completions s = s
complete_all (suc n) completions s =
    complete_all n (λ k. completions (suc k)) (complete (completions 0) s)
