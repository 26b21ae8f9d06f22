-- ===== src/WebSocket/Sharing/Calls.antt =====
-- Every call has an effect of these.
use postboy.Prelude.{
  ℕ, ◌<◌, ◌≡◌, refl, ap, subst, inl, inr, Option, none, some, arith, ◌==◌, Bool, true, false, not,
  Bool-cases,
}
use postboy.WebSocket.{
  not_connected, state_is, Client, change_state, close, send, on_receive, on_established, Answer,
  on_writeable, settled_if, Context, Contexts, Outcome, returned, connect_in, connect, connect_impl,
  reset_context, finish, destroy, Event, on_event, client_closed, connection_error, receive,
  established, writeable, other_reason,
}
use postboy.WebSocket.Sharing.{
  Act, connects, times_out, happens, sends, closes, finishes, destroys, outcome_of, act, is_active,
  is_allowed,
}
use postboy.WebSocket.Sharing.Effects.{
  Kept, Effect, keeps, refuses, goes, fails, starts, joins, releases, Kept-refl, close-Kept,
  send-Kept, on_receive-Kept, on_established-Kept, on_writeable-Kept,
}

-- What an active client relies on.
abbrev pub Entered : Client → Contexts → Type 0
Entered c contexts =
    is_active c ≡ true → (k : Context) × (contexts c.ev_loop ≡ some k) × (0 < k.clients_count)

connect_in-Effect :
    (made : Option ℕ) (c : Client) (contexts : Contexts) (o : Option Context)
    → is_active c ≡ false
    → contexts c.ev_loop ≡ o
    → Effect c contexts (connect_in made c contexts o)
connect_in-Effect none c contexts none idle e = fails idle e
connect_in-Effect (some x) c contexts none idle e = starts x idle e
connect_in-Effect none c contexts (some k) idle e = joins k idle e
connect_in-Effect (some x) c contexts (some k) idle e = joins k idle e

connect-Effect :
    (made : Option ℕ) (c : Client) (contexts : Contexts)
    → Effect c contexts (connect made c contexts)
unfolding connect
connect-Effect made c contexts = elim (Bool-cases (state_is c.state not_connected)) [
  | inl e ↦ rw e (connect_in-Effect made c contexts (contexts c.ev_loop) (ap not e) refl)
  | inr e ↦ rw e refuses
]

connect_impl-Effect :
    (success exhausted : Bool) (c : Client) (contexts : Contexts)
    → is_active c ≡ true
    → Entered c contexts
    → Effect c contexts (connect_impl success exhausted c contexts)
unfolding connect_impl
connect_impl-Effect true exhausted c contexts a h = keeps c (Kept-refl c)
connect_impl-Effect false true c contexts a h =
    let (k, e, _) = h a in rw e (keeps (close c) (close-Kept c))
connect_impl-Effect false false c contexts a h = let (k, e, _) = h a in rw e (keeps c (Kept-refl c))

reset_context-Effect :
    (after : Option Client) (c : Client) (contexts : Contexts)
    → is_active c ≡ true
    → Entered c contexts
    → ((d : Client) → after ≡ some d → is_active d ≡ false)
    → Effect c contexts (reset_context after c.ev_loop contexts)
reset_context-Effect after c contexts a h idle =
    let (k, e, positive) = h a in
    let counted : (k.clients_count == 0) ≡ false = ground (arith, positive) in
    rw (e, counted) (releases after k a e positive idle)

finish-Effect :
    (c : Client) (contexts : Contexts) → Entered c contexts → Effect c contexts (finish c contexts)
unfolding finish
finish-Effect c contexts h = elim (Bool-cases (state_is c.state not_connected)) [
  | inl e ↦ rw e (keeps c (Kept-refl c))
  | inr e ↦ rw e (
      reset_context-Effect (some (change_state not_connected c)) c contexts (ap not e) h (λ d is.
        let same : change_state not_connected c ≡ d = cc is in
        subst (λ d. is_active d ≡ false) same refl))
]

destroy-Effect :
    (c : Client) (contexts : Contexts) → Entered c contexts → Effect c contexts (destroy c contexts)
unfolding destroy
destroy-Effect c contexts h = elim (Bool-cases (state_is c.state not_connected)) [
  | inl e ↦ rw e (goes (ap not e))
  | inr e ↦ rw e (reset_context-Effect none c contexts (ap not e) h (λ d is. absurd (cc is)))
]

settled_if-Effect :
    (c : Client) (contexts : Contexts) (o : Option (Client × Answer)) (r : Outcome)
    → ((p : Client × Answer) → o ≡ some p → Kept c p.0)
    → outcome_of (settled_if contexts o) ≡ some r
    → Effect c contexts r
settled_if-Effect c contexts none r h e = absurd (cc e)
settled_if-Effect c contexts (some (d, a)) r h e =
    let f : returned (some d) contexts ≡ r = cc e in
    subst (Effect c contexts) f (keeps d (h (d, a) refl))

on_event-Effect :
    (lws_pre : ℕ) (e : Event) (c : Client) (contexts : Contexts) (r : Outcome)
    → is_active c ≡ true
    → Entered c contexts
    → outcome_of (on_event lws_pre e c contexts) ≡ some r
    → Effect c contexts r
unfolding on_event
on_event-Effect lws_pre (client_closed s x) c contexts r a h e =
    let f : connect_impl s x c contexts ≡ r = cc e in
    subst (Effect c contexts) f (connect_impl-Effect s x c contexts a h)
on_event-Effect lws_pre (connection_error s x) c contexts r a h e =
    let f : connect_impl s x c contexts ≡ r = cc e in
    subst (Effect c contexts) f (connect_impl-Effect s x c contexts a h)
on_event-Effect lws_pre (receive fragment final) c contexts r a h e =
    settled_if-Effect c contexts (some (on_receive fragment final c, Answer.dummy)) r
      (λ p is.
        subst (λ p. Kept c p.0)
          (let f : (on_receive fragment final c, Answer.dummy) ≡ p = cc is in f)
          (on_receive-Kept fragment final c))
      e
on_event-Effect lws_pre established c contexts r a h e =
    settled_if-Effect c contexts (some (on_established c, Answer.dummy)) r
      (λ p is.
        subst (λ p. Kept c p.0) (let f : (on_established c, Answer.dummy) ≡ p = cc is in f)
          (on_established-Kept c a))
      e
on_event-Effect lws_pre (writeable amount) c contexts r a h e =
    settled_if-Effect c contexts (on_writeable lws_pre amount c) r
      (on_writeable-Kept lws_pre amount c) e
on_event-Effect lws_pre other_reason c contexts r a h e =
    settled_if-Effect c contexts (some (c, Answer.dummy)) r
      (λ p is. subst (λ p. Kept c p.0) (let f : (c, Answer.dummy) ≡ p = cc is in f) (Kept-refl c)) e

-- Every call that is allowed has such an effect; to abort is none.
pub act-Effect :
    (lws_pre : ℕ) (a : Act) (c : Client) (contexts : Contexts) (o : Outcome)
    → is_allowed a c ≡ true
    → Entered c contexts
    → act lws_pre a c contexts ≡ some o
    → Effect c contexts o
unfolding act
act-Effect lws_pre (connects made) c contexts o w h e =
    let f : connect made c contexts ≡ o = cc e in
    subst (Effect c contexts) f (connect-Effect made c contexts)
act-Effect lws_pre (times_out s x) c contexts o w h e =
    let f : connect_impl s x c contexts ≡ o = cc e in
    subst (Effect c contexts) f (connect_impl-Effect s x c contexts w h)
act-Effect lws_pre (happens event) c contexts o w h e =
    on_event-Effect lws_pre event c contexts o w h e
act-Effect lws_pre (sends m) c contexts o w h e =
    let f : returned (some (send m c)) contexts ≡ o = cc e in
    subst (Effect c contexts) f (keeps (send m c) (send-Kept m c))
act-Effect lws_pre closes c contexts o w h e =
    let f : returned (some (close c)) contexts ≡ o = cc e in
    subst (Effect c contexts) f (keeps (close c) (close-Kept c))
act-Effect lws_pre finishes c contexts o w h e =
    let f : finish c contexts ≡ o = cc e in subst (Effect c contexts) f (finish-Effect c contexts h)
act-Effect lws_pre destroys c contexts o w h e =
    let f : destroy c contexts ≡ o = cc e in
    subst (Effect c contexts) f (destroy-Effect c contexts h)
