-- ===== src/Processors/Copy/Steps.antt =====
-- What every step of a copy keeps: the lines that were put and those to be read are the file's.
use postboy.Prelude.{
  ◌≡◌, refl, ap, sym, subst, ◌∙◌, inl, inr, Option, none, some, List, [], ◌∷◌, ◌++◌, append-nil,
  append_assoc, arith, ◌==◌, Bool, true, false, Bool-cases, Option-cases, Bytes,
}
use postboy.Csv.{getline}
use postboy.Processors.{file_reader_process}
use postboy.Graph.Traffic.{
  ReaderWriterQueue, Taker, dequeuing, checking, Traffic, put_round, leave, dequeued, dequeue_round,
  check_round, Reach-conserved,
}
use postboy.Graph.Traffic as Queue
use postboy.Processors.Copy.{
  Source, reading, putting, unlinking, unlinked, Copy, read, try_put, unlink, write,
}
use postboy.Processors.Copy.Lines.{lines, unlines, lines-getline, no_lines, unlines-append}

abbrev pub pending : Source → List Bytes
pending (putting line) = line ∷ []
pending _ = []

abbrev pub is_done : Source → Bool
is_done unlinking = true
is_done unlinked = true
is_done _ = false

abbrev pub is_unlinked : Source → Bool
is_unlinked unlinked = true
is_unlinked _ = false

abbrev pub unwritten : Taker Bytes → List Bytes
unwritten (Taker.returned (some line)) = line ∷ []
unwritten _ = []

module _ (inner_queue : ReaderWriterQueue Bytes) where
  open inner_queue use {Inner, try_enqueue, try_dequeue, contents}

  pub record Follows (file : Bytes) (q : Inner) (s : Copy inner_queue) : Type 0 where
    pub queue : Queue.Reach inner_queue q 1 s.traffic
    pub kept : s.traffic.put ++ (pending s.source ++ lines s.unread) ≡ lines file
    pub active : is_unlinked s.source ≡ false → s.traffic.active_producers ≡ 1
    pub read_all : is_done s.source ≡ true → lines s.unread ≡ []
    pub written : s.out ++ unlines (unwritten s.traffic.taker) ≡ unlines s.traffic.taken
    pub last : s.finished ≡ true → s.traffic.taker ≡ Taker.returned none

  pub read-Follows :
      (file : Bytes) (q : Inner) (s : Copy inner_queue)
      → s.source ≡ reading
      → Follows file q s
      → Follows file q (read inner_queue s)
  unfolding file_reader_process
  read-Follows file q s at h = elim (Option-cases (getline s.unread)) [
    | inl e ↦ rw e (record {
      queue = h.queue;
      kept = subst (λ p. s.traffic.put ++ (pending p ++ lines s.unread) ≡ lines file) at h.kept;
      active = λ _. h.active (ap is_unlinked at);
      read_all = λ _. no_lines s.unread e;
      written = h.written;
      last = h.last;
    })
    | inr ((line, rest), e) ↦ rw e (record {
      queue = h.queue;
      kept =
          ap (λ l. s.traffic.put ++ l) (sym (lines-getline s.unread line rest e))
          ∙ subst (λ p. s.traffic.put ++ (pending p ++ lines s.unread) ≡ lines file) at h.kept;
      active = λ _. h.active (ap is_unlinked at);
      read_all = λ w. absurd (cc w);
      written = h.written;
      last = h.last;
    })
  ]

  pub try_put-Follows :
      (file : Bytes) (q : Inner) (s : Copy inner_queue) (line : Bytes)
      → s.source ≡ putting line
      → Follows file q s
      → Follows file q (try_put inner_queue line s)
  try_put-Follows file q s line at h =
      let queue =
        Queue.Reach.next h.queue
          (Queue.Step.puts line (omega (arith, h.active (ap is_unlinked at)))) in
      let kept =
        subst (λ p. s.traffic.put ++ (pending p ++ lines s.unread) ≡ lines file) at h.kept in
      elim (Bool-cases (try_enqueue line s.traffic.inner).0) [
        | inl e ↦ record {
          queue = queue;
          kept = rw e (append_assoc s.traffic.put (line ∷ []) (lines s.unread) ∙ kept);
          active = λ _. h.active (ap is_unlinked at);
          read_all = rw e (λ w. absurd (cc w));
          written = h.written;
          last = h.last;
        }
        | inr e ↦ record {
          queue = queue;
          kept = rw e kept;
          active = λ _. h.active (ap is_unlinked at);
          read_all = rw e (λ w. absurd (cc w));
          written = h.written;
          last = h.last;
        }
      ]

  pub unlink-Follows :
      (file : Bytes) (q : Inner) (s : Copy inner_queue)
      → s.source ≡ unlinking
      → Follows file q s
      → Follows file q (unlink inner_queue s)
  unlink-Follows file q s at h =
      let one = h.active (ap is_unlinked at) in
      let ensured : (s.traffic.active_producers == 1) ≡ true = ground (arith, one) in
      rw ensured (record {
        queue = Queue.Reach.next h.queue (Queue.Step.leaves (omega (arith, one)));
        kept = subst (λ p. s.traffic.put ++ (pending p ++ lines s.unread) ≡ lines file) at h.kept;
        active = λ w. absurd (cc w);
        read_all = λ _. h.read_all (ap is_done at);
        written = h.written;
        last = h.last;
      })

  dequeued-written :
      (t : Traffic inner_queue) (o : Option Bytes × Inner) (out : Bytes)
      → t.taker ≡ dequeuing
      → out ++ unlines (unwritten t.taker) ≡ unlines t.taken
      → (out ++ unlines (unwritten (dequeued inner_queue t o).taker)
          ≡ unlines (dequeued inner_queue t o).taken)
        × ((dequeued inner_queue t o).put ≡ t.put)
        × ((dequeued inner_queue t o).active_producers ≡ t.active_producers)
  dequeued-written t (none, inner) out at e =
      (subst (λ k. out ++ unlines (unwritten k) ≡ unlines t.taken) at e, refl, refl)
  dequeued-written t (some line, inner) out at e =
      let before =
        sym (append-nil out) ∙ subst (λ k. out ++ unlines (unwritten k) ≡ unlines t.taken) at e in
      (
        ap (λ l. l ++ unlines (line ∷ [])) before ∙ sym (unlines-append t.taken (line ∷ [])),
        refl,
        refl,
      )

  pub dequeue-Follows :
      (file : Bytes) (q : Inner) (s : Copy inner_queue)
      → s.finished ≡ false
      → s.traffic.taker ≡ dequeuing
      → Follows file q s
      → Follows file q (record s { traffic = dequeue_round inner_queue s.traffic })
  dequeue-Follows file q s going at h =
      let (w, p, a) = dequeued-written s.traffic (try_dequeue s.traffic.inner) s.out at h.written in
      record {
        queue = Queue.Reach.next h.queue (Queue.Step.dequeues_one at);
        kept = ap (λ l. l ++ (pending s.source ++ lines s.unread)) p ∙ h.kept;
        active = λ u. a ∙ h.active u;
        read_all = h.read_all;
        written = w;
        last = λ f. absurd (cc (going, f));
      }

  pub check-Follows :
      (file : Bytes) (q : Inner) (s : Copy inner_queue)
      → s.finished ≡ false
      → s.traffic.taker ≡ checking
      → Follows file q s
      → Follows file q (record s { traffic = check_round inner_queue s.traffic })
  check-Follows file q s going at h = record {
    queue = Queue.Reach.next h.queue (Queue.Step.checks at);
    kept = h.kept;
    active = h.active;
    read_all = h.read_all;
    written =
        let before =
          subst (λ k. s.out ++ unlines (unwritten k) ≡ unlines s.traffic.taken) at h.written in
        elim (Bool-cases (s.traffic.active_producers == 0)) [
          | inl z ↦ rw z before
          | inr z ↦ rw z before
        ];
    last = λ f. absurd (cc (going, f));
  }

  pub write-Follows :
      (file : Bytes) (q : Inner) (s : Copy inner_queue) (taken : Option Bytes)
      → s.finished ≡ false
      → s.traffic.taker ≡ Taker.returned taken
      → Follows file q s
      → Follows file q (write inner_queue taken s)
  write-Follows file q s none going at h = record {
    queue = h.queue;
    kept = h.kept;
    active = h.active;
    read_all = h.read_all;
    written = h.written;
    last = λ _. at;
  }
  write-Follows file q s (some line) going at h = record {
    queue = Queue.Reach.next h.queue (Queue.Step.takes (some line) at);
    kept = h.kept;
    active = h.active;
    read_all = h.read_all;
    written =
        append-nil _
        ∙ subst (λ k. s.out ++ unlines (unwritten k) ≡ unlines s.traffic.taken) at h.written;
    last = λ f. absurd (cc (going, f));
  }
