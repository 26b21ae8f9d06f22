-- ===== src/Http/AsyncRequest/Answered.antt =====
-- A request that is written is answered once.
use postboy.Prelude.{
  ℕ, zero, suc, ◌≡◌, refl, ap, sym, subst, ◌∙◌, [], ◌∷◌, ◌++◌, if◌then◌else◌, Bool, true, false,
  not, Bytes, either_way,
}
use postboy.Http.SyncRequest.{is_set, k_connect_error, k_write_error, k_read_error}
use postboy.Http.AsyncRequest.{
  idle, resolving, connecting, handshaking, writing, reading, AsyncRequest, Completion,
  callback_result, await, connect, write, told, bind_to, unless_failed, on_resolve, on_connect,
  on_handshake, on_write, on_read, response_code, complete_at, complete_all,
}

-- A callback is set, and the socket can be opened and bound whenever an address is given.
abbrev pub IsLive : AsyncRequest → Type 0
IsLive s = (s.cb ≡ true) × (s.callback_disabled ≡ false)

abbrev pub Opens : (ℕ → Completion) → Bytes → Type 0
Opens f ip = is_set ip ≡ true → (k : ℕ) → ((f k).opened ≡ true) × ((f k).bound ≡ true)

-- One more code was handed to the callback, and nothing is pending.
abbrev pub AnsweredOnce : AsyncRequest → AsyncRequest → Type 0
AnsweredOnce s t = (code : ℕ) × (t.answered ≡ s.answered ++ (code ∷ [])) × (t.pending ≡ idle)

complete_all-idle :
    (n : ℕ) (f : ℕ → Completion) (s : AsyncRequest) → s.pending ≡ idle → complete_all n f s ≡ s
unfolding complete_all
complete_all-idle zero f s e = refl
complete_all-idle (suc n) f s e =
    ap (λ p. complete_all n (λ k. f (suc k)) (complete_at p (f 0) s)) e
    ∙ complete_all-idle n (λ k. f (suc k)) s e

callback_result-live :
    (code : ℕ) (s : AsyncRequest)
    → IsLive s
    → callback_result code s ≡ (record s { answered = s.answered ++ (code ∷ []) })
unfolding callback_result
callback_result-live code s (has, enabled) =
    ap
      (λ b.
        if b then s else if s.cb then (record s { answered = s.answered ++ (code ∷ []) }) else s)
      enabled
    ∙ ap (λ b. if b then (record s { answered = s.answered ++ (code ∷ []) }) else s) has

answered :
    (n : ℕ) (f : ℕ → Completion) (code : ℕ) (s : AsyncRequest)
    → IsLive s
    → AnsweredOnce s (complete_all n f (callback_result code (await idle s)))
answered n f code s live =
    let once : AsyncRequest = record (await idle s) { answered = s.answered ++ (code ∷ []) } in
    let same =
      ap (complete_all n f) (callback_result-live code (await idle s) live)
      ∙ complete_all-idle n f once refl in
    subst (AnsweredOnce s) (sym same) (code, refl, refl)

unless_failed-answered :
    (n : ℕ) (f : ℕ → Completion) (c : Completion) (code : ℕ) (s later : AsyncRequest)
    → IsLive s
    → AnsweredOnce s (complete_all n f later)
    → AnsweredOnce s (complete_all n f (unless_failed c code s later))
unless_failed-answered n f c code s later live h =
    either_way (λ t. AnsweredOnce s (complete_all n f t)) c.failed
      (callback_result code (await idle s)) later (λ _. answered n f code s live) (λ _. h)

read_answered :
    (n : ℕ) (f : ℕ → Completion) (s : AsyncRequest)
    → IsLive s
    → AnsweredOnce s (complete_all (suc n) f (await reading s))
unfolding complete_all on_read
read_answered n f s live =
    unless_failed-answered n (λ k. f (suc k)) (f 0) k_read_error (await reading s) _ live
      (answered n (λ k. f (suc k)) (response_code (f 0).result_int) s live)

write_answered :
    (n : ℕ) (f : ℕ → Completion) (s : AsyncRequest)
    → IsLive s
    → AnsweredOnce s (complete_all (suc (suc n)) f (await writing s))
unfolding complete_all on_write
write_answered n f s live =
    unless_failed-answered (suc n) (λ k. f (suc k)) (f 0) k_write_error (await writing s)
      (await reading s) live (read_answered n (λ k. f (suc k)) s live)

handshake_answered :
    (n : ℕ) (f : ℕ → Completion) (s : AsyncRequest)
    → IsLive s
    → AnsweredOnce s (complete_all (suc (suc (suc n))) f (await handshaking s))
unfolding complete_all on_handshake
handshake_answered n f s live =
    unless_failed-answered (suc (suc n)) (λ k. f (suc k)) (f 0) k_connect_error
      (await handshaking s) (await writing (record s { connected = true })) live
      (write_answered n (λ k. f (suc k)) (record s { connected = true }) live)

connect_answered :
    (n : ℕ) (f : ℕ → Completion) (s : AsyncRequest)
    → IsLive s
    → AnsweredOnce s (complete_all (suc (suc (suc (suc n)))) f (await connecting s))
unfolding complete_all on_connect
connect_answered n f s live =
    unless_failed-answered (suc (suc (suc n))) (λ k. f (suc k)) (f 0) k_connect_error
      (await connecting s) (await handshaking s) live (handshake_answered n (λ k. f (suc k)) s live)

bind_to-opens :
    (c : Completion) (s : AsyncRequest)
    → (is_set s.ip ≡ true → (c.opened ≡ true) × (c.bound ≡ true))
    → bind_to c s ≡ s
bind_to-opens c s h =
    either_way (λ t. t ≡ s) (is_set s.ip) (told c.bound (told c.opened s)) s
      (λ e. let (o, b) = h e in ap (λ x. told x (told c.opened s)) b ∙ ap (λ x. told x s) o)
      (λ _. refl)

resolve_answered :
    (n : ℕ) (f : ℕ → Completion) (s : AsyncRequest)
    → IsLive s
    → Opens f s.ip
    → AnsweredOnce s (complete_all (suc (suc (suc (suc (suc n))))) f (await resolving s))
unfolding complete_all on_resolve
resolve_answered n f s live opens =
    unless_failed-answered (suc (suc (suc (suc n)))) (λ k. f (suc k)) (f 0) k_connect_error
      (await resolving s) (await connecting (bind_to (f 0) (await resolving s))) live
      (subst
        (λ t.
          AnsweredOnce s
            (complete_all (suc (suc (suc (suc n)))) (λ k. f (suc k)) (await connecting t)))
        (sym (bind_to-opens (f 0) (await resolving s) (λ e. opens e 0)))
        (connect_answered n (λ k. f (suc k)) s live))

-- When a callback is set, nothing is pending, and the socket can be opened and bound whenever an address is
-- given: a call of Write, and then five completions or more, whatever they say, hand exactly one code to the
-- callback, and leave nothing pending.
pub write-AnsweredOnce :
    (n : ℕ) (f : ℕ → Completion) (host_name_set : Bool) (s : AsyncRequest)
    → s.cb ≡ true
    → s.callback_disabled ≡ false
    → s.pending ≡ idle
    → Opens f s.ip
    → AnsweredOnce s (complete_all (suc (suc (suc (suc (suc n))))) f (write host_name_set s))
unfolding write
write-AnsweredOnce n f host_name_set s has enabled at opens =
    subst
      (λ b. AnsweredOnce s (
        complete_all (suc (suc (suc (suc (suc n))))) f (
          if not b
          then s
          else if not s.connected
          then connect host_name_set s
          else await writing s)))
      (sym has)
      (either_way (λ t. AnsweredOnce s (complete_all (suc (suc (suc (suc (suc n))))) f t))
        (not s.connected) (connect host_name_set s) (await writing s)
        (λ _.
          either_way (λ t. AnsweredOnce s (complete_all (suc (suc (suc (suc (suc n))))) f t))
            host_name_set (await resolving s) (callback_result k_connect_error s)
            (λ _. resolve_answered n f s (has, enabled) opens)
            (λ _.
              subst
                (λ p. AnsweredOnce s (
                  complete_all (suc (suc (suc (suc (suc n))))) f
                    (callback_result k_connect_error (await p s))))
                (sym at)
                (answered (suc (suc (suc (suc (suc n))))) f k_connect_error s (has, enabled))))
        (λ _. write_answered (suc (suc (suc n))) f s (has, enabled)))
