-- ===== src/WebSocket/Sharing/Effects.antt =====
-- What an operation of a client does to the client and to the contexts.
use postboy.Prelude.{
  ℕ, ◌+◌, ◌-◌, ◌<◌, ◌≡◌, refl, ap, sym, subst, ◌∙◌, inl, inr, Option, none, some, List, [], ◌∷◌,
  arith, length, ltb, Bool, true, false, ◌||◌, Bool-cases, Bytes, update_at,
}
use postboy.WebSocket.{
  not_connected, connected, closing_connection, rank, state_is, Client, no_messages, close, send,
  on_receive, on_established, Answer, short_write, write_front, write_first, on_writeable, Context,
  Contexts, Outcome, returned, threw, put_context, connecting_with, released,
}
use postboy.WebSocket.Sharing.{is_active}

-- A client that uses what it used.
pub record Kept (c d : Client) : Type 0 where
  pub loop_kept : d.ev_loop ≡ c.ev_loop
  pub context_kept : d.context ≡ c.context
  pub active_kept : is_active d ≡ is_active c

pub data Effect (c : Client) (contexts : Contexts) : Outcome → Type 0 where
  keeps : (d : Client) → Kept c d → Effect c contexts (returned (some d) contexts)
  refuses : Effect c contexts (threw c contexts)
  goes : is_active c ≡ false → Effect c contexts (returned none contexts)
  fails :
      is_active c ≡ false
      → contexts c.ev_loop ≡ none
      → Effect c contexts (threw c (put_context c.ev_loop none 1 contexts))
  starts :
      (x : ℕ)
      → is_active c ≡ false
      → contexts c.ev_loop ≡ none
      → Effect c contexts
          (returned (some (connecting_with (some x) c)) (put_context c.ev_loop (some x) 1 contexts))
  joins :
      (k : Context)
      → is_active c ≡ false
      → contexts c.ev_loop ≡ some k
      → Effect c contexts (
          returned
            (some (connecting_with k.context c))
            (put_context c.ev_loop k.context (k.clients_count + 1) contexts))
  releases :
      (after : Option Client) (k : Context)
      → is_active c ≡ true
      → contexts c.ev_loop ≡ some k
      → 0 < k.clients_count
      → ((d : Client) → after ≡ some d → is_active d ≡ false)
      → Effect c contexts (returned after (update_at contexts c.ev_loop (some (released k))))

pub Kept-refl : (c : Client) → Kept c c
Kept-refl c = record { loop_kept = refl; context_kept = refl; active_kept = refl }

Kept-trans : {c d e : Client} → Kept c d → Kept d e → Kept c e
Kept-trans a b = record {
  loop_kept = b.loop_kept ∙ a.loop_kept;
  context_kept = b.context_kept ∙ a.context_kept;
  active_kept = b.active_kept ∙ a.active_kept;
}

pub close-Kept : (c : Client) → Kept c (close c)
unfolding close
close-Kept c =
    elim (Bool-cases (state_is c.state closing_connection || state_is c.state not_connected)) [
      | inl e ↦ rw e (Kept-refl c)
      | inr e ↦
          rw e (record { loop_kept = refl; context_kept = refl; active_kept = ground (arith, e) })
    ]

pub send-Kept : (message : Bytes) (c : Client) → Kept c (send message c)
unfolding send
send-Kept message c = elim (Bool-cases (no_messages c.msgs_to_send)) [
  | inl e ↦ rw e (record { loop_kept = refl; context_kept = refl; active_kept = refl })
  | inr e ↦ rw e (record { loop_kept = refl; context_kept = refl; active_kept = refl })
]

pub on_receive-Kept :
    (fragment : Bytes) (final : Bool) (c : Client) → Kept c (on_receive fragment final c)
unfolding on_receive
on_receive-Kept fragment true c = record {
  loop_kept = refl;
  context_kept = refl;
  active_kept = refl;
}
on_receive-Kept fragment false c = record {
  loop_kept = refl;
  context_kept = refl;
  active_kept = refl;
}

pub on_established-Kept : (c : Client) → is_active c ≡ true → Kept c (on_established c)
unfolding on_established
on_established-Kept c a = elim (Bool-cases (ltb (rank c.state) (rank connected))) [
  | inl e ↦ rw e (record { loop_kept = refl; context_kept = refl; active_kept = sym a })
  | inr e ↦ rw e (Kept-refl c)
]

module _ (lws_pre : ℕ) where
  write_front-Kept :
      (amount : Option ℕ) (front : Bytes) (others : List Bytes) (c : Client)
      → Kept c (write_front lws_pre amount front others c).0
  write_front-Kept amount front others c =
      elim (Bool-cases (short_write amount (length front - lws_pre))) [
        | inl e ↦ rw e (
            Kept-trans (record { loop_kept = refl; context_kept = refl; active_kept = refl })
              (close-Kept _))
        | inr e ↦ elim (Bool-cases (no_messages others)) [
          | inl f ↦ rw (e, f) (record { loop_kept = refl; context_kept = refl; active_kept = refl })
          | inr f ↦ rw (e, f) (record { loop_kept = refl; context_kept = refl; active_kept = refl })
        ]
      ]

  write_first-Kept :
      (amount : Option ℕ) (ms : List Bytes) (c : Client) (r : Client × Answer)
      → write_first lws_pre amount ms c ≡ some r
      → Kept c r.0
  write_first-Kept amount [] c r e =
      let f : c ≡ r.0 = ap (λ o. elim o [ none ↦ c | some r ↦ r.0 ]) e in
      subst (Kept c) f (Kept-refl c)
  write_first-Kept amount (front ∷ others) c r e = elim (Bool-cases (ltb (length front) lws_pre)) [
    | inl h ↦ let f : none ≡ some r = rw h at e in absurd (cc f)
    | inr h ↦
        let f : some (write_front lws_pre amount front others c) ≡ some r = rw h at e in
        let g : write_front lws_pre amount front others c ≡ r = cc f in
        subst (λ r. Kept c r.0) g (write_front-Kept amount front others c)
  ]

  pub on_writeable-Kept :
      (amount : Option ℕ) (c : Client) (r : Client × Answer)
      → on_writeable lws_pre amount c ≡ some r
      → Kept c r.0
  unfolding on_writeable
  on_writeable-Kept amount c r e =
      let answered : Client = record c { writable_asked = false } in
      let first : Kept c answered = record {
        loop_kept = refl;
        context_kept = refl;
        active_kept = refl;
      } in
      elim (Bool-cases (state_is c.state closing_connection)) [
        | inl h ↦
            let f : some (answered, Answer.minus_one) ≡ some r = rw h at e in
            let g : (answered, Answer.minus_one) ≡ r = cc f in subst (λ r. Kept c r.0) g first
        | inr h ↦
            let f : write_first lws_pre amount c.msgs_to_send answered ≡ some r = rw h at e in
            Kept-trans first (write_first-Kept amount c.msgs_to_send answered r f)
      ]
