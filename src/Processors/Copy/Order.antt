-- ===== src/Processors/Copy/Order.antt =====
-- The lines that were written, that wait in the queue and that are unread are the file's.
use postboy.Prelude.{
  ◌≡◌, refl, ap, ap₂, sym, ◌∙◌, inl, inr, [], ◌++◌, append-nil, append_assoc, arith, true,
  Bool-cases, Bytes,
}
use postboy.Graph.Traffic.{
  ReaderWriterQueue, Taker, dequeuing, checking, Traffic, put_round, leave, dequeued, dequeue_round,
  check_round, Reach-conserved,
}
use postboy.Graph.Traffic as Queue
use postboy.Processors.Copy.{
  Source, reading, putting, unlinking, unlinked, Copy, reads, puts_line, unlinks, dequeues_one,
  checks, writes, Reach, here, next,
}
use postboy.Processors.Copy.Lines.{lines, unlines, ended, unlines-lines, unlines-append}
use postboy.Processors.Copy.Steps.{
  pending, is_done, is_unlinked, unwritten, Follows, read-Follows, try_put-Follows, unlink-Follows,
  dequeue-Follows, check-Follows, write-Follows,
}

module _ (inner_queue : ReaderWriterQueue Bytes) where
  open inner_queue use {Inner, contents}

  Reach-Follows :
      {file : Bytes} {q : Inner} {s : Copy inner_queue}
      → Reach inner_queue file q s
      → Follows inner_queue file q s
  Reach-Follows here = record {
    queue = Queue.Reach.here;
    kept = refl;
    active = λ _. refl;
    read_all = λ w. absurd (cc w);
    written = refl;
    last = λ w. absurd (cc w);
  }
  Reach-Follows {file} {q} (next {s} r (reads at)) =
      read-Follows inner_queue file q s at (Reach-Follows r)
  Reach-Follows {file} {q} (next {s} r (puts_line line at)) =
      try_put-Follows inner_queue file q s line at (Reach-Follows r)
  Reach-Follows {file} {q} (next {s} r (unlinks at)) =
      unlink-Follows inner_queue file q s at (Reach-Follows r)
  Reach-Follows {file} {q} (next {s} r (dequeues_one going at)) =
      dequeue-Follows inner_queue file q s going at (Reach-Follows r)
  Reach-Follows {file} {q} (next {s} r (checks going at)) =
      check-Follows inner_queue file q s going at (Reach-Follows r)
  Reach-Follows {file} {q} (next {s} r (writes taken going at)) =
      write-Follows inner_queue file q s taken going at (Reach-Follows r)

  -- The file, as what was written and what is on its way.
  on_its_way :
      (file : Bytes) (q : Inner) (s : Copy inner_queue)
      → contents q ≡ []
      → Follows inner_queue file q s
      → s.out
          ++ unlines (
              unwritten s.traffic.taker
              ++ (contents s.traffic.inner ++ (pending s.source ++ lines s.unread)))
        ≡ ended file
  on_its_way file q s empty h =
      let (conserved, _) = Reach-conserved inner_queue empty h.queue in
      let later = contents s.traffic.inner ++ (pending s.source ++ lines s.unread) in
      ap (λ t. s.out ++ t) (unlines-append (unwritten s.traffic.taker) later)
      ∙ sym (append_assoc s.out (unlines (unwritten s.traffic.taker)) (unlines later))
      ∙ ap (λ t. t ++ unlines later) h.written
      ∙ sym (unlines-append s.traffic.taken later)
      ∙ ap unlines (
          sym (
            append_assoc s.traffic.taken (contents s.traffic.inner)
              (pending s.source ++ lines s.unread)))
      ∙ ap (λ t. unlines (t ++ (pending s.source ++ lines s.unread))) (sym conserved)
      ∙ ap unlines h.kept
      ∙ unlines-lines file

  is_unlinked_done : (p : Source) → is_unlinked p ≡ true → (is_done p ≡ true) × (pending p ≡ [])
  is_unlinked_done unlinked e = (refl, refl)
  is_unlinked_done reading e = absurd (cc e)
  is_unlinked_done unlinking e = absurd (cc e)
  is_unlinked_done (putting _) e = absurd (cc e)

  -- From an empty queue, however the reader's and the writer's steps are interleaved: what FileWriter has
  -- written is the start of the file, with its last line ended; and when it has finished, the rest of the file
  -- are the lines that are still in the queue, so that the file was copied when none is.
  pub Reach-copied :
      {file : Bytes} {q : Inner} {s : Copy inner_queue}
      → contents q ≡ []
      → Reach inner_queue file q s
      → ((rest : Bytes) × (s.out ++ rest ≡ ended file))
        × (s.finished ≡ true → s.out ++ unlines (contents s.traffic.inner) ≡ ended file)
  Reach-copied {file} {q} {s} empty r =
      let h = Reach-Follows r in
      let all = on_its_way file q s empty h in
      (
        (_, all),
        λ f.
            let none_active = (Reach-conserved inner_queue empty h.queue).1 (h.last f) in
            let gone : is_unlinked s.source ≡ true = elim (Bool-cases (is_unlinked s.source)) [
              | inl e ↦ e
              | inr e ↦ absurd (omega (arith, none_active, h.active e))
            ] in
            let (d, p) = is_unlinked_done s.source gone in
            ap (λ t. s.out ++ unlines t)
              (sym (append-nil (contents s.traffic.inner))
                ∙ ap (λ t. contents s.traffic.inner ++ t)
                    (sym (ap₂ (λ a b. a ++ b) p (h.read_all d)))
                ∙ ap
                    (λ k.
                      unwritten k
                      ++ (contents s.traffic.inner ++ (pending s.source ++ lines s.unread)))
                    (sym (h.last f)))
            ∙ all,
      )
