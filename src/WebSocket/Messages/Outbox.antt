-- ===== src/WebSocket/Messages/Outbox.antt =====
-- One operation of a client, and the messages that wait.
use postboy.Prelude.{
  ℕ, ◌-◌, ◌≤◌, ◌≡◌, refl, ap, ap₂, sym, subst, ◌∙◌, inl, inr, Option, some, List, [], ◌∷◌, ◌++◌,
  map, append-nil, append_assoc, arith, length, drop, ltb, true, false, ◌||◌, Bool-cases, Bytes,
  c_string,
}
use postboy.WebSocket.{
  not_connected, connected, closing_connection, rank, state_is, Client, close, no_messages, send,
  on_established, Answer, minus_one, dummy, short_write, write_front, write_first, on_writeable,
}
use postboy.WebSocket.Messages.{AllPadded}

-- Each message that waits has its room in front and has been announced to the library, unless the connection is
-- being closed.
pub record Ready (lws_pre : ℕ) (c : Client) : Type 0 where
  pub padded : AllPadded lws_pre c.msgs_to_send
  pub announced :
      state_is c.state closing_connection ≡ false
      → no_messages c.msgs_to_send ≡ false
      → c.writable_asked ≡ true
  pub active : state_is c.state not_connected ≡ false

-- What a talk does to the messages.
pub record Sends (lws_pre : ℕ) (c : Client) (ms : List Bytes) (d : Client) : Type 0 where
  pub conserved :
      d.written ++ map (drop lws_pre) d.msgs_to_send
      ≡ (c.written ++ map (drop lws_pre) c.msgs_to_send) ++ map (drop lws_pre) ms
  pub ready : Ready lws_pre d
  pub same_received : d.received ≡ c.received
  pub same_buffer : d.buffer ≡ c.buffer

module _ (lws_pre : ℕ) where
  AllPadded-append :
      (xs ys : List Bytes)
      → AllPadded lws_pre xs
      → AllPadded lws_pre ys
      → AllPadded lws_pre (xs ++ ys)
  AllPadded-append [] ys a b = b
  AllPadded-append (x ∷ xs) ys a b = (a.0, AllPadded-append xs ys a.1 b)

  map-append :
      (xs ys : List Bytes)
      → map (drop lws_pre) (xs ++ ys) ≡ map (drop lws_pre) xs ++ map (drop lws_pre) ys
  map-append [] ys = refl
  map-append (x ∷ xs) ys = ap (λ t. drop lws_pre x ∷ t) (map-append xs ys)

  -- A client whose messages are the same.
  unsent :
      (c d : Client)
      → d.written ≡ c.written
      → d.msgs_to_send ≡ c.msgs_to_send
      → Ready lws_pre d
      → d.received ≡ c.received
      → d.buffer ≡ c.buffer
      → Sends lws_pre c [] d
  unsent c d w m r x y = record {
    conserved = ap₂ (λ a b. a ++ map (drop lws_pre) b) w m ∙ sym (append-nil _);
    ready = r;
    same_received = x;
    same_buffer = y;
  }

  pub close-Sends : (c : Client) → Ready lws_pre c → Sends lws_pre c [] (close c)
  unfolding close
  close-Sends c r =
      elim (Bool-cases (state_is c.state closing_connection || state_is c.state not_connected)) [
        | inl e ↦ rw e (unsent c c refl refl r refl refl)
        | inr e ↦ rw e (
            unsent c _ refl refl
              (record { padded = r.padded; announced = λ _ _. refl; active = refl }) refl refl)
      ]

  pub send-Sends :
      (m : Bytes) (c : Client)
      → lws_pre ≤ length (c_string m)
      → Ready lws_pre c
      → Sends lws_pre c (c_string m ∷ []) (send m c)
  unfolding send
  send-Sends m c room r =
      let conserved =
        ap (λ t. c.written ++ t) (map-append c.msgs_to_send (c_string m ∷ []))
        ∙ sym (
            append_assoc c.written (map (drop lws_pre) c.msgs_to_send)
              (drop lws_pre (c_string m) ∷ [])) in
      let padded = AllPadded-append c.msgs_to_send (c_string m ∷ []) r.padded (room, tt) in
      elim (Bool-cases (no_messages c.msgs_to_send)) [
        | inl e ↦ rw e (record {
          conserved = conserved;
          ready = record { padded = padded; announced = λ _ _. refl; active = r.active };
          same_received = refl;
          same_buffer = refl;
        })
        | inr e ↦ rw e (record {
          conserved = conserved;
          ready = record { padded = padded; announced = λ s _. r.announced s e; active = r.active };
          same_received = refl;
          same_buffer = refl;
        })
      ]

  pub on_established-Sends : (c : Client) → Ready lws_pre c → Sends lws_pre c [] (on_established c)
  unfolding on_established
  on_established-Sends c r = elim (Bool-cases (ltb (rank c.state) (rank connected))) [
    | inl e ↦ rw e (
        unsent c _ refl refl
          (record {
            padded = r.padded;
            announced = λ _ w. r.announced (ground (arith, e)) w;
            active = refl;
          })
          refl refl)
    | inr e ↦ rw e (unsent c c refl refl r refl refl)
  ]

  Sends-trans :
      (c d e : Client) → Sends lws_pre c [] d → Sends lws_pre d [] e → Sends lws_pre c [] e
  Sends-trans c d e a b = record {
    conserved = b.conserved ∙ append-nil _ ∙ a.conserved;
    ready = b.ready;
    same_received = b.same_received ∙ a.same_received;
    same_buffer = b.same_buffer ∙ a.same_buffer;
  }

  -- Writing the front message, where nothing is announced any more.
  write_front-Sends :
      (amount : Option ℕ) (front : Bytes) (others : List Bytes) (c : Client)
      → c.msgs_to_send ≡ front ∷ others
      → AllPadded lws_pre others
      → state_is c.state closing_connection ≡ false
      → state_is c.state not_connected ≡ false
      → Sends lws_pre c [] (write_front lws_pre amount front others c).0
  unfolding close
  write_front-Sends amount front others c e p open_state active =
      let moved =
        append_assoc c.written (drop lws_pre front ∷ []) (map (drop lws_pre) others)
        ∙ sym (append-nil (c.written ++ map (drop lws_pre) (front ∷ others)))
        ∙ ap (λ ms. (c.written ++ map (drop lws_pre) ms) ++ []) (sym e) in
      elim (Bool-cases (short_write amount (length front - lws_pre))) [
        | inl h ↦
            rw (h, open_state, active)
              (record {
                conserved = moved;
                ready = record { padded = p; announced = λ _ _. refl; active = refl };
                same_received = refl;
                same_buffer = refl;
              })
        | inr h ↦ elim (Bool-cases (no_messages others)) [
          | inl f ↦
              rw (h, f)
                (record {
                  conserved = moved;
                  ready = record {
                    padded = p;
                    announced = λ _ w. absurd (cc (f, w));
                    active = active;
                  };
                  same_received = refl;
                  same_buffer = refl;
                })
          | inr f ↦
              rw (h, f)
                (record {
                  conserved = moved;
                  ready = record { padded = p; announced = λ _ _. refl; active = active };
                  same_received = refl;
                  same_buffer = refl;
                })
        ]
      ]

  write_first-Sends :
      (amount : Option ℕ) (ms : List Bytes) (c : Client)
      → c.msgs_to_send ≡ ms
      → AllPadded lws_pre ms
      → state_is c.state closing_connection ≡ false
      → state_is c.state not_connected ≡ false
      → (r : Client × Answer) × (write_first lws_pre amount ms c ≡ some r) × Sends lws_pre c [] r.0
  write_first-Sends amount [] c e p open_state active = (
    (c, dummy),
    refl,
    unsent c c refl refl
        (record {
          padded = subst (AllPadded lws_pre) (sym e) tt;
          announced = λ _ w. absurd (cc (sym (ap no_messages e) ∙ w));
          active = active;
        })
        refl refl,
  )
  write_first-Sends amount (front ∷ others) c e p open_state active =
      let room : ltb (length front) lws_pre ≡ false = ground (arith, p.0) in
      (
        write_front lws_pre amount front others c,
        rw room refl,
        write_front-Sends amount front others c e p.1 open_state active,
      )

  pub on_writeable-Sends :
      (amount : Option ℕ) (c : Client)
      → Ready lws_pre c
      → (r : Client × Answer) × (on_writeable lws_pre amount c ≡ some r) × Sends lws_pre c [] r.0
  unfolding on_writeable
  on_writeable-Sends amount c r =
      let answered : Client = record c { writable_asked = false } in
      elim (Bool-cases (state_is c.state closing_connection)) [
        | inl e ↦ (
          (answered, minus_one),
          rw e refl,
          unsent c answered refl refl
              (record {
                padded = r.padded;
                announced = λ f _. absurd (cc (e, f));
                active = r.active;
              })
              refl refl,
        )
        | inr e ↦
            let (p, is, s) =
              write_first-Sends amount c.msgs_to_send answered refl r.padded e r.active in
            (
              p,
              rw e is,
              record {
                conserved = s.conserved;
                ready = s.ready;
                same_received = s.same_received;
                same_buffer = s.same_buffer;
              },
            )
      ]
