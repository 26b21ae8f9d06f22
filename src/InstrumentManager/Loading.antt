-- ===== src/InstrumentManager/Loading.antt =====
-- src/instrument_manager/instrument_manager.cpp: `Load`, by any number of threads, one access to `status` or to
-- the manager a step.
pub mod Once
use postboy.Prelude.{ℕ, ◌+◌, ◌≡◌, Option, none, some, update_at}

pub data Status : Type 0 where
  init running finished : Status

-- Where a thread stands: outside, before the exchange, in the constructor, behind it, in the loop that waits,
-- behind an exception of the constructor, or behind `Load`.
pub data Loader : Type 0 where
  outside exchanging making storing waiting thrown returned : Loader

-- The manager is known by the thread whose file it was made of.
pub record Loading : Type 0 where
  pub status : Status
  pub manager : Option ℕ
  pub made : ℕ
  pub loaders : ℕ → Loader

abbrev pub start : Loading
start = record { status = init; manager = none; made = 0; loaders = λ _. outside }

abbrev pub go : ℕ → Loader → Loading → Loading
go i l s = record s { loaders = update_at s.loaders i l }

-- `compare_exchange_strong`, and what follows by the value that it found.
abbrev pub found : Status → ℕ → Loading → Loading
found init i s = record (go i making s) { status = running }
found running i s = go i waiting s
found finished i s = go i returned s

abbrev pub exchange_status : ℕ → Loading → Loading
exchange_status i s = found s.status i s

abbrev pub make : ℕ → Loading → Loading
make i s = record (go i storing s) { manager = some i; made = s.made + 1 }

abbrev pub store_finished : ℕ → Loading → Loading
store_finished i s = record (go i returned s) { status = finished }

abbrev pub waited : Status → Loader
waited finished = returned
waited _ = waiting

abbrev pub wait : ℕ → Loading → Loading
wait i s = go i (waited s.status) s

pub data Step (s : Loading) : Loading → Type 0 where
  calls : (i : ℕ) → s.loaders i ≡ outside → Step s (go i exchanging s)
  exchanges : (i : ℕ) → s.loaders i ≡ exchanging → Step s (exchange_status i s)
  makes : (i : ℕ) → s.loaders i ≡ making → Step s (make i s)
  throws : (i : ℕ) → s.loaders i ≡ making → Step s (go i thrown s)
  stores : (i : ℕ) → s.loaders i ≡ storing → Step s (store_finished i s)
  waits : (i : ℕ) → s.loaders i ≡ waiting → Step s (wait i s)
  calls_again : (i : ℕ) → s.loaders i ≡ returned → Step s (go i exchanging s)

pub data Reach : Loading → Type 0 where
  here : Reach start
  next : {s t : Loading} → Reach s → Step s t → Reach t
