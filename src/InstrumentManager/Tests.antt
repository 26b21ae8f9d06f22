-- ===== src/InstrumentManager/Tests.antt =====
-- A file of two rows of one symbol, whose numbers are known by their lengths, and a run of three threads.
use postboy.Prelude.{
  ℕ, ◌≤◌, ◌≡◌, ◌≢◌, refl, Option, none, some, List, [], ◌∷◌, ◌++◌, length, ◌==◌, if◌then◌else◌,
  Bytes, codes, bytes_eq, ◌+◌, arith,
}
use postboy.InstrumentManager.{
  Numbers, Instrument, InstrumentManager, Construction, out_of_fuel, threw, built,
  instrument_manager, get_instrument_by_symbol, get_instrument,
}
use postboy.InstrumentManager.Consistency.{Promised, Ends, instrument_manager-Ends}
use postboy.InstrumentManager.Reading.{RowsFit, fresh_reader}
use postboy.InstrumentManager.Loading.{
  Loader, Loading, start, go, exchange_status, make, store_finished, wait, Step, Reach,
}
use postboy.InstrumentManager.Loading.Once.{Reach-once}

abbrev number : Bytes → Option ℕ
number [] = none
number (c ∷ cs) = some (length cs)

abbrev lengths : Numbers
lengths = record { Double = ℕ; Int = ℕ; zero_double = 0; stod = number; stoi = number }

abbrev onto_first : ℕ → List Bytes → List Bytes
onto_first c [] = (c ∷ []) ∷ []
onto_first c (f ∷ fs) = (c ∷ f) ∷ fs

abbrev at_bars : Bytes → List Bytes
at_bars [] = [] ∷ []
at_bars (c ∷ cs) = let later = at_bars cs in if c == 124 then [] ∷ later else onto_first c later

-- A header, two rows and what stands behind a blank line.
abbrev two_rows : Bytes
two_rows =
    codes "head"
    ++ (10 ∷ codes "a|b|X|1|12|1|1|1")
    ++ (10 ∷ codes "a|b|X|1|1|1|1|1")
    ++ (10 ∷ 10 ∷ codes "a|b|Y|1|1|1|1|1")

abbrev same_line : Bytes → Bytes
same_line l = l

abbrev loaded : Construction lengths
loaded = instrument_manager lengths same_line at_bars two_rows

abbrev ids : Construction lengths → List ℕ
ids (built m) = elim (get_instrument_by_symbol lengths (codes "X") m) [
  | none ↦ []
  | some x ↦ x.id ∷ x.step_size ∷ []
]
ids _ = []

abbrev given : Construction lengths → ℕ
given (built m) = m.new_product_id
given _ = 7

-- The first row of the symbol counts, and a blank line ends the file.
first_counts : (ids loaded ≡ 0 ∷ 1 ∷ []) × (given loaded ≡ 2)
unfolding instrument_manager get_instrument_by_symbol postboy.Csv.read_map
    postboy.InstrumentManager.instrument_of bytes_eq postboy.InstrumentManager.find
    postboy.InstrumentManager.emplace
first_counts = (refl, refl)

rows_fit : RowsFit same_line at_bars (length two_rows + 1) (fresh_reader two_rows)
unfolding postboy.Csv.readline postboy.Csv.read_map
rows_fit = (omega arith, λ l e. (omega arith, λ l e. (tt, λ l e. absurd (cc e))))

instrument_manager-Ends_example : Ends lengths (Promised lengths) loaded
instrument_manager-Ends_example =
    instrument_manager-Ends lengths same_line at_bars two_rows (omega arith) rows_fit

-- Threads 0 and 1 race; 0 makes the manager, and 1 waits until it is there.
abbrev raced : Loading
raced = wait 1 (
    store_finished 0 (
      make 0 (
        exchange_status 1
          (exchange_status 0 (go 1 Loader.exchanging (go 0 Loader.exchanging start))))))

raced_reached : Reach raced
raced_reached =
    Reach.next
      (Reach.next
        (Reach.next
          (Reach.next
            (Reach.next (Reach.next (Reach.next Reach.here (Step.calls 0 refl)) (Step.calls 1 refl))
              (Step.exchanges 0 refl))
            (Step.exchanges 1 refl))
          (Step.makes 0 refl))
        (Step.stores 0 refl))
      (Step.waits 1 refl)

Reach-once_example :
    (raced.made ≤ 1)
    × ((i : ℕ) → raced.loaders i ≡ Loader.returned → (w : ℕ) × (raced.manager ≡ some w))
    × ((i j : ℕ) → raced.loaders i ≡ Loader.thrown → raced.loaders j ≢ Loader.returned)
Reach-once_example = Reach-once raced_reached
