-- ===== src/Http/SyncRequest/Secured.antt =====
-- Nothing is written to a stream that is not secured.
use postboy.Prelude.{
  ◌≡◌, refl, inl, inr, Option, none, some, List, [], ◌∷◌, ◌==◌, Bool, true, false, not, Bool-cases,
  Bytes, either_way,
}
use postboy.Http.SyncRequest.{
  Call, set_host_name, open_socket, bind_socket, tcp_connect, set_linger, handshake, write_request,
  read_response, Log, Response, no_response, SyncRequest, sync_request, Answers, attempt, is_set,
  shake_hands, then_linger, connect_bound, bind_opened, connect_named, connect_calls, connect_with,
  connect, shutdown_err, set_target, set_body, set_http_host, destruct, shutdown, logged,
  prepare_request, respond, exchange, exchange_on, send,
}

-- A stream whose host name was set, and that was then bound to the given address if there is one.
abbrev pub IsNamed : Log → Type 0
IsNamed ((set_host_name, true) ∷ l) = Unit {0}
IsNamed ((bind_socket, true) ∷ (open_socket, true) ∷ (set_host_name, true) ∷ l) = Unit {0}
IsNamed _ = ⊥

-- A stream that was then connected and shook hands, and on which nothing failed since.
abbrev pub IsSecured : Log → Type 0
IsSecured ((handshake, true) ∷ (set_linger, true) ∷ (tcp_connect, true) ∷ l) = IsNamed l
IsSecured ((write_request, true) ∷ l) = IsSecured l
IsSecured ((read_response, true) ∷ l) = IsSecured l
IsSecured _ = ⊥

abbrev pub IsWritten : Log → Type 0
IsWritten ((write_request, true) ∷ l) = IsSecured l
IsWritten _ = ⊥

-- Each request was written to a secured stream, and each response was read behind a request.
abbrev pub IsValid : Log → Type 0
IsValid [] = Unit {0}
IsValid ((write_request, ok) ∷ l) = IsSecured l × IsValid l
IsValid ((read_response, ok) ∷ l) = IsWritten l × IsValid l
IsValid ((set_host_name, ok) ∷ l) = IsValid l
IsValid ((open_socket, ok) ∷ l) = IsValid l
IsValid ((bind_socket, ok) ∷ l) = IsValid l
IsValid ((tcp_connect, ok) ∷ l) = IsValid l
IsValid ((set_linger, ok) ∷ l) = IsValid l
IsValid ((handshake, ok) ∷ l) = IsValid l

abbrev pub AllValid : List Log → Type 0
AllValid [] = Unit {0}
AllValid (l ∷ ls) = IsValid l × AllValid ls

pub data Operation : Type 0 where
  prepares : Bytes → Bytes → Option Bytes → Bytes → Bytes → Operation
  connects : Answers → Operation
  sends : Answers → Bool → Option Response → Operation
  shuts_down shuts_down_err destructs : Operation
  sets_target sets_body sets_http_host : Bytes → Operation

module _ (c_text : Bytes → Bytes) where
  abbrev pub perform : Operation → SyncRequest → SyncRequest
  perform (prepares verb host content_type body path) s =
      prepare_request verb host content_type body path s
  perform (connects a) s = (connect a s).0
  perform (sends a ok r) s = send c_text a ok r s
  perform shuts_down s = shutdown s
  perform shuts_down_err s = shutdown_err s
  perform destructs s = destruct s
  perform (sets_target target) s = set_target target s
  perform (sets_body body) s = set_body body s
  perform (sets_http_host host) s = set_http_host host s

  abbrev pub perform_all : List Operation → SyncRequest → SyncRequest
  perform_all [] s = s
  perform_all (o ∷ os) s = perform_all os (perform o s)

  -- Connect is called only while the request is not connected.
  abbrev pub NotConnectedAt : Operation → SyncRequest → Type 0
  NotConnectedAt (connects a) s = s.connected ≡ false
  NotConnectedAt _ s = Unit {0}

  abbrev pub ConnectsApart : List Operation → SyncRequest → Type 0
  ConnectsApart [] s = Unit {0}
  ConnectsApart (o ∷ os) s = NotConnectedAt o s × ConnectsApart os (perform o s)

record Holds (s : SyncRequest) : Type 0 where
  valid : IsValid s.stream
  all_closed : AllValid s.closed_streams
  secured : s.connected ≡ true → IsSecured s.stream

abbrev Good : Log × Bool → Type 0
Good r = IsValid r.0 × (r.1 ≡ true → IsSecured r.0)

attempt-Good :
    (call : Call) (ok : Bool) (later : Log → Log × Bool) (log : Log)
    → IsValid ((call, false) ∷ log)
    → Good (later ((call, true) ∷ log))
    → Good (attempt call ok later log)
attempt-Good call true later log failed h = h
attempt-Good call false later log failed h = (failed, λ e. absurd (cc e))

connect_bound-Good :
    (a : Answers) (log : Log) → IsValid log → IsNamed log → Good (connect_bound a log)
connect_bound-Good a log v n =
    let l1 : Log = (tcp_connect, true) ∷ log in
    let l2 : Log = (set_linger, true) ∷ l1 in
    attempt-Good tcp_connect a.tcp_connected (then_linger a) log v (
      attempt-Good set_linger a.linger_set (shake_hands a) l1 v
        (attempt-Good handshake a.shaken (λ log. (log, true)) l2 v (v, λ _. n)))

connect_named-Good :
    (ip : Bytes) (a : Answers) (log : Log)
    → IsValid log
    → Good (connect_named ip a ((set_host_name, true) ∷ log))
connect_named-Good ip a log v =
    let l1 : Log = (set_host_name, true) ∷ log in
    let l2 : Log = (open_socket, true) ∷ l1 in
    let l3 : Log = (bind_socket, true) ∷ l2 in
    elim (Bool-cases a.resolved) [
      | inr e ↦ rw e (v, λ f. absurd (cc f))
      | inl e ↦ elim (Bool-cases (is_set ip)) [
        | inr f ↦ rw (e, f) (connect_bound-Good a l1 v tt)
        | inl f ↦
            rw (e, f)
              (attempt-Good open_socket a.opened (bind_opened a) l1 v (
                attempt-Good bind_socket a.bound (connect_bound a) l2 v
                  (connect_bound-Good a l3 v tt)))
      ]
    ]

connect_calls-Good :
    (ip : Bytes) (a : Answers) (log : Log) → IsValid log → Good (connect_calls ip a log)
connect_calls-Good ip a log v =
    attempt-Good set_host_name a.host_name_set (connect_named ip a) log v
      (connect_named-Good ip a log v)

connect_with-Holds :
    (r : Log × Bool) (s : SyncRequest)
    → Good r
    → AllValid s.closed_streams
    → s.connected ≡ false
    → Holds (connect_with r s).0
      × ((connect_with r s).1 ≡ true → (connect_with r s).0.connected ≡ true)
connect_with-Holds (log, true) s g c d =
    (record { valid = g.0; all_closed = c; secured = λ _. g.1 refl }, λ _. refl)
connect_with-Holds (log, false) s g c d =
    (record { valid = g.0; all_closed = c; secured = λ e. absurd (cc (d, e)) }, λ e. absurd (cc e))

connect-Holds :
    (a : Answers) (s : SyncRequest)
    → Holds s
    → s.connected ≡ false
    → Holds (connect a s).0 × ((connect a s).1 ≡ true → (connect a s).0.connected ≡ true)
unfolding connect
connect-Holds a s h d =
    connect_with-Holds (connect_calls s.ip a s.stream) s
      (connect_calls-Good s.ip a s.stream h.valid) h.all_closed d

module _ (c_text : Bytes → Bytes) where
  respond-Holds : (s : SyncRequest) → Holds s → Holds (respond c_text s)
  respond-Holds s h = elim (Bool-cases (s.response.result_int == 0)) [
    | inl e ↦ rw e (record { valid = h.valid; all_closed = h.all_closed; secured = h.secured })
    | inr e ↦ rw e (record { valid = h.valid; all_closed = h.all_closed; secured = h.secured })
  ]

  exchange-Holds :
      (ok : Bool) (r : Option Response) (s : SyncRequest)
      → Holds s
      → s.connected ≡ true
      → Holds (exchange c_text ok r s)
  exchange-Holds false r s h e = record {
    valid = tt;
    all_closed = ((h.secured e, h.valid), h.all_closed);
    secured = λ f. absurd (cc f);
  }
  exchange-Holds true none s h e = record {
    valid = tt;
    all_closed = ((h.secured e, (h.secured e, h.valid)), h.all_closed);
    secured = λ f. absurd (cc f);
  }
  exchange-Holds true (some r) s h e =
      respond-Holds
        (record (logged read_response true (logged write_request true s)) { response = r })
        (record {
          valid = (h.secured e, (h.secured e, h.valid));
          all_closed = h.all_closed;
          secured = λ _. h.secured e;
        })

  exchange_on-Holds :
      (ok : Bool) (r : Option Response) (p : SyncRequest × Bool)
      → Holds p.0
      → (p.1 ≡ true → p.0.connected ≡ true)
      → Holds (exchange_on c_text ok r p)
  exchange_on-Holds ok r (s, true) h e = exchange-Holds ok r s h (e refl)
  exchange_on-Holds ok r (s, false) h e = record {
    valid = h.valid;
    all_closed = h.all_closed;
    secured = h.secured;
  }

  send-Holds :
      (a : Answers) (ok : Bool) (r : Option Response) (s : SyncRequest)
      → Holds s
      → Holds (send c_text a ok r s)
  unfolding send
  send-Holds a ok r s h =
      let cleared : SyncRequest = record s { response = no_response } in
      let g : Holds cleared = record {
        valid = h.valid;
        all_closed = h.all_closed;
        secured = h.secured;
      } in
      either_way Holds s.connected (exchange c_text ok r cleared)
        (exchange_on c_text ok r (connect a cleared)) (exchange-Holds ok r cleared g)
        (λ e.
          let (k, l) = connect-Holds a cleared g e in
          exchange_on-Holds ok r (connect a cleared) k l)

  shutdown_err-Holds : (s : SyncRequest) → Holds s → Holds (shutdown_err s)
  shutdown_err-Holds s h = record {
    valid = tt;
    all_closed = (h.valid, h.all_closed);
    secured = λ e. absurd (cc e);
  }

  perform-Holds :
      (o : Operation) (s : SyncRequest)
      → NotConnectedAt c_text o s
      → Holds s
      → Holds (perform c_text o s)
  unfolding shutdown prepare_request
  perform-Holds (prepares _ _ _ _ _) s apart h = record {
    valid = h.valid;
    all_closed = h.all_closed;
    secured = h.secured;
  }
  perform-Holds (connects a) s apart h = (connect-Holds a s h apart).0
  perform-Holds (sends a ok r) s apart h = send-Holds a ok r s h
  perform-Holds shuts_down s apart h =
      either_way Holds (not s.connected) (shutdown_err s) s (λ _. shutdown_err-Holds s h) (λ _. h)
  perform-Holds shuts_down_err s apart h = shutdown_err-Holds s h
  perform-Holds destructs s apart h =
      let cleared : SyncRequest = record s { response = no_response } in
      let g : Holds cleared = record {
        valid = h.valid;
        all_closed = h.all_closed;
        secured = h.secured;
      } in
      either_way Holds s.connected (shutdown cleared) cleared
        (λ _.
          either_way Holds (not s.connected) (shutdown_err cleared) cleared
            (λ _. shutdown_err-Holds cleared g) (λ _. g))
        (λ _. g)
  perform-Holds (sets_target _) s apart h = record {
    valid = h.valid;
    all_closed = h.all_closed;
    secured = h.secured;
  }
  perform-Holds (sets_body _) s apart h = record {
    valid = h.valid;
    all_closed = h.all_closed;
    secured = h.secured;
  }
  perform-Holds (sets_http_host _) s apart h = record {
    valid = h.valid;
    all_closed = h.all_closed;
    secured = h.secured;
  }

  perform_all-Holds :
      (os : List Operation) (s : SyncRequest)
      → ConnectsApart c_text os s
      → Holds s
      → Holds (perform_all c_text os s)
  perform_all-Holds [] s apart h = h
  perform_all-Holds (o ∷ os) s apart h =
      perform_all-Holds os (perform c_text o s) apart.1 (perform-Holds o s apart.0 h)

  -- In any run of connections, preparations, settings, sendings, shutdowns and destructions of a new request in
  -- which Connect itself is called only while the request is not connected, whatever the library answers: on every
  -- stream, the closed ones too, a request is written only while the last connection of this stream, with its
  -- host name, its address if one is given, and its handshake, succeeded and nothing failed since; a response is
  -- read only behind a request; and a request that counts as connected has such a stream.
  pub perform_all-Secured :
      (os : List Operation) (ip : Bytes)
      → ConnectsApart c_text os (sync_request ip)
      → IsValid (perform_all c_text os (sync_request ip)).stream
        × AllValid (perform_all c_text os (sync_request ip)).closed_streams
        × ((perform_all c_text os (sync_request ip)).connected ≡ true
            → IsSecured (perform_all c_text os (sync_request ip)).stream)
  perform_all-Secured os ip apart =
      let h =
        perform_all-Holds os (sync_request ip) apart
          (record { valid = tt; all_closed = tt; secured = λ e. absurd (cc e) }) in
      (h.valid, h.all_closed, h.secured)
