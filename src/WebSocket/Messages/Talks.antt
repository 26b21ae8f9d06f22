-- ===== src/WebSocket/Messages/Talks.antt =====
-- What a client receives and sends in any run of calls and events.
use postboy.Prelude.{
  ℕ, ◌≡◌, refl, ap, ap₂, sym, subst, ◌∙◌, none, some, List, [], ◌∷◌, ◌++◌, map, append-nil,
  append_assoc, drop, Bool, true, false, Bytes, c_string,
}
use postboy.WebSocket.{Client, on_receive}
use postboy.WebSocket.Messages.{
  Talk, sends, receives, writes, establishes, closes, without_answer, talk_all, sent, AllPadded,
  onto_first, messages_of,
}
use postboy.WebSocket.Messages.Outbox.{
  Ready, Sends, close-Sends, send-Sends, on_established-Sends, on_writeable-Sends,
}

onto_first_nil : (r : List Bytes × Bytes) → onto_first [] r ≡ r
onto_first_nil ([], rest) = refl
onto_first_nil (m ∷ ms, rest) = refl

onto_first_append :
    (a b : Bytes) (r : List Bytes × Bytes) → onto_first (a ++ b) r ≡ onto_first a (onto_first b r)
onto_first_append a b ([], rest) = ap (λ t. ([], t)) (append_assoc a b rest)
onto_first_append a b (m ∷ ms, rest) = ap (λ t. (t ∷ ms, rest)) (append_assoc a b m)

-- What was written and then what waits are the messages sent, in order, without the room in front of each; the
-- messages handed on are the fragments put together, up to each final one, behind what was there already.
pub record Talked (lws_pre : ℕ) (c : Client) (ts : List Talk) (d : Client) : Type 0 where
  pub conserved :
      d.written ++ map (drop lws_pre) d.msgs_to_send
      ≡ (c.written ++ map (drop lws_pre) c.msgs_to_send) ++ map (drop lws_pre) (sent ts)
  pub received : d.received ≡ c.received ++ (onto_first c.buffer (messages_of ts)).0
  pub buffered : d.buffer ≡ (onto_first c.buffer (messages_of ts)).1
  pub ready : Ready lws_pre d

module _ (lws_pre : ℕ) where
  -- A talk that receives nothing, and those behind it.
  behind-Sends :
      (c d e : Client) (ms : List Bytes) (ts us : List Talk)
      → Sends lws_pre c ms d
      → map (drop lws_pre) (sent us) ≡ map (drop lws_pre) ms ++ map (drop lws_pre) (sent ts)
      → messages_of us ≡ messages_of ts
      → Talked lws_pre d ts e
      → Talked lws_pre c us e
  behind-Sends c d e ms ts us s more same t = record {
    conserved =
        t.conserved
        ∙ ap (λ l. l ++ map (drop lws_pre) (sent ts)) s.conserved
        ∙ append_assoc (c.written ++ map (drop lws_pre) c.msgs_to_send) (map (drop lws_pre) ms)
            (map (drop lws_pre) (sent ts))
        ∙ ap (λ l. (c.written ++ map (drop lws_pre) c.msgs_to_send) ++ l) (sym more);
    received =
        t.received
        ∙ ap₂ (λ a b. a ++ (onto_first b (messages_of ts)).0) s.same_received s.same_buffer
        ∙ ap (λ m. c.received ++ (onto_first c.buffer m).0) (sym same);
    buffered =
        t.buffered
        ∙ ap (λ b. (onto_first b (messages_of ts)).1) s.same_buffer
        ∙ ap (λ m. (onto_first c.buffer m).1) (sym same);
    ready = t.ready;
  }

  behind_receive :
      (fragment : Bytes) (final : Bool) (c e : Client) (ts : List Talk)
      → Talked lws_pre (on_receive fragment final c) ts e
      → Talked lws_pre c (receives fragment final ∷ ts) e
  unfolding on_receive
  behind_receive fragment true c e ts t = record {
    conserved = t.conserved;
    received =
        t.received
        ∙ ap (λ r. (c.received ++ ((c.buffer ++ fragment) ∷ [])) ++ r.0)
            (onto_first_nil (messages_of ts))
        ∙ append_assoc c.received ((c.buffer ++ fragment) ∷ []) (messages_of ts).0;
    buffered = t.buffered ∙ ap (λ r. r.1) (onto_first_nil (messages_of ts));
    ready = t.ready;
  }
  behind_receive fragment false c e ts t = record {
    conserved = t.conserved;
    received =
        t.received
        ∙ ap (λ r. c.received ++ r.0) (onto_first_append c.buffer fragment (messages_of ts));
    buffered = t.buffered ∙ ap (λ r. r.1) (onto_first_append c.buffer fragment (messages_of ts));
    ready = t.ready;
  }

  on_receive-Ready :
      (fragment : Bytes) (final : Bool) (c : Client)
      → Ready lws_pre c
      → Ready lws_pre (on_receive fragment final c)
  unfolding on_receive
  on_receive-Ready fragment true c r = record {
    padded = r.padded;
    announced = r.announced;
    active = r.active;
  }
  on_receive-Ready fragment false c r = record {
    padded = r.padded;
    announced = r.announced;
    active = r.active;
  }

  -- From a client that is connected or about to be, whose waiting messages have been announced, in any run of
  -- messages sent, fragments received, writeable events, establishments and closings, when each message up to its
  -- first zero byte, which is all that Send takes of it, has the room in front that the library asks for: the code reads in bounds; what was written, and then what waits,
  -- is what was written or waited before and then the messages sent, cut so, in order; what is handed on are the
  -- fragments put together up to each final one, and the rest is kept; and the messages that wait have been
  -- announced, unless the connection is being closed.
  pub talk_all-Talked :
      (ts : List Talk) (c : Client)
      → AllPadded lws_pre (sent ts)
      → Ready lws_pre c
      → (d : Client) × (talk_all lws_pre ts c ≡ some d) × Talked lws_pre c ts d
  unfolding talk_all
  talk_all-Talked [] c p r = (
    c,
    refl,
    record {
      conserved = sym (append-nil _);
      received = sym (append-nil _);
      buffered = sym (append-nil _);
      ready = r;
    },
  )
  talk_all-Talked (sends m ∷ ts) c p r =
      let s = send-Sends lws_pre m c p.0 r in
      let (e, is, t) = talk_all-Talked ts _ p.1 s.ready in
      (e, is, behind-Sends c _ e (c_string m ∷ []) ts (sends m ∷ ts) s refl refl t)
  talk_all-Talked (receives fragment final ∷ ts) c p r =
      let (e, is, t) = talk_all-Talked ts _ p (on_receive-Ready fragment final c r) in
      (e, is, behind_receive fragment final c e ts t)
  talk_all-Talked (writes amount ∷ ts) c p r =
      let (q, one, s) = on_writeable-Sends lws_pre amount c r in
      let (e, is, t) = talk_all-Talked ts q.0 p s.ready in
      (
        e,
        subst
            (λ o. elim (without_answer o) [ none ↦ none | some d ↦ talk_all lws_pre ts d ] ≡ some e)
            (sym one) is,
        behind-Sends c q.0 e [] ts (writes amount ∷ ts) s refl refl t,
      )
  talk_all-Talked (establishes ∷ ts) c p r =
      let s = on_established-Sends lws_pre c r in
      let (e, is, t) = talk_all-Talked ts _ p s.ready in
      (e, is, behind-Sends c _ e [] ts (establishes ∷ ts) s refl refl t)
  talk_all-Talked (closes ∷ ts) c p r =
      let s = close-Sends lws_pre c r in
      let (e, is, t) = talk_all-Talked ts _ p s.ready in
      (e, is, behind-Sends c _ e [] ts (closes ∷ ts) s refl refl t)
