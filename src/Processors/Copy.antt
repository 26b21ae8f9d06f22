-- ===== src/Processors/Copy.antt =====
-- src/processors/common/file_reader.cpp and file_writer.cpp, with the queue of src/postboy/base/queues/spsc.hpp
-- between them: a step is one call of the reader's or the writer's thread, or one access to the queue.
pub mod Lines
pub mod Steps
pub mod Order
use postboy.Prelude.{◌≡◌, Option, none, some, [], if◌then◌else◌, Bool, true, false, Bytes}
use postboy.Graph.Queues.{Failure}
use postboy.Processors.{
  Output, puts, requests_finish, nothing, file_reader_process, file_writer_process,
}
use postboy.Graph.Traffic.{
  ReaderWriterQueue, Taker, dequeuing, checking, Traffic, put_round, leave, begin_take,
  dequeue_round, check_round,
}

-- Where the reader's thread stands: before `Process`, in `Put`, before it gives up its port, or behind that.
pub data Source : Type 0 where
  reading unlinking unlinked : Source
  putting : Bytes → Source

abbrev pub source_of : Output Bytes → Source
source_of (puts line) = putting line
source_of requests_finish = unlinking
source_of nothing = reading

module _ (inner_queue : ReaderWriterQueue Bytes) where
  open inner_queue use {Inner, try_enqueue}

  pub record Copy : Type 0 where
    pub unread : Bytes
    pub source : Source
    pub traffic : Traffic inner_queue
    pub out : Bytes
    pub finished : Bool

  abbrev pub start : Bytes → Inner → Copy
  start file q = record {
    unread = file;
    source = reading;
    traffic = record { inner = q; active_producers = 1; taker = dequeuing; put = []; taken = [] };
    out = [];
    finished = false;
  }

  abbrev pub read : Copy → Copy
  read s =
      let (rest, o) = file_reader_process s.unread in
      record s { unread = rest; source = source_of o }

  abbrev pub try_put : Bytes → Copy → Copy
  try_put line s = record s {
    traffic = put_round inner_queue line s.traffic;
    source = if (try_enqueue line s.traffic.inner).0 then reading else putting line;
  }

  -- A failed ENSURE would end the reader's thread.
  abbrev pub unlinked_by : Traffic inner_queue × Option Failure → Copy → Copy
  unlinked_by (traffic, none) s = record s { traffic = traffic; source = unlinked }
  unlinked_by (traffic, some e) s = record s { traffic = traffic }

  abbrev pub unlink : Copy → Copy
  unlink s = unlinked_by (leave inner_queue s.traffic) s

  -- The writer's `Process` behind its `Take`.
  abbrev pub written_by : Bytes × Output Bytes → Copy → Copy
  written_by (out, nothing) s = record s { out = out; traffic = begin_take inner_queue s.traffic }
  written_by (out, requests_finish) s = record s { out = out; finished = true }
  written_by (out, puts x) s = record s { out = out }

  abbrev pub write : Option Bytes → Copy → Copy
  write taken s = written_by (file_writer_process taken s.out) s

  pub data Step (s : Copy) : Copy → Type 0 where
    reads : s.source ≡ reading → Step s (read s)
    puts_line : (line : Bytes) → s.source ≡ putting line → Step s (try_put line s)
    unlinks : s.source ≡ unlinking → Step s (unlink s)
    dequeues_one :
        s.finished ≡ false
        → s.traffic.taker ≡ dequeuing
        → Step s (record s { traffic = dequeue_round inner_queue s.traffic })
    checks :
        s.finished ≡ false
        → s.traffic.taker ≡ checking
        → Step s (record s { traffic = check_round inner_queue s.traffic })
    writes :
        (taken : Option Bytes)
        → s.finished ≡ false
        → s.traffic.taker ≡ Taker.returned taken
        → Step s (write taken s)

  pub data Reach (file : Bytes) (q : Inner) : Copy → Type 0 where
    here : Reach file q (start file q)
    next : {s t : Copy} → Reach file q s → Step s t → Reach file q t
