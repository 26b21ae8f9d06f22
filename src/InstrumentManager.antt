-- ===== src/InstrumentManager.antt =====
-- src/instrument_manager/instrument_manager.cpp: the table of instruments that is read from a CSV file.
-- `stod`, `stoi` and the numbers they give are parameters, like the libraries that the CSV reader uses. An
-- instrument's number is an int, which a file of fewer than 2^31 bytes does not pass.
pub mod Loading
pub mod Reading
pub mod Maps
pub mod Consistency
mod Tests
use postboy.Prelude.{
  ℕ, zero, suc, ◌+◌, Option, none, some, List, [], ◌∷◌, ◌++◌, length, ◌==◌, if◌then◌else◌, Bool,
  true, Bytes, codes, bytes_eq, c_string,
}
use postboy.Csv.{Row, RowMap, at_header, Reader, read_map}

-- What `std::stod` and `std::stoi` give; none where they throw.
pub record Numbers : Type 1 where
  pub Double : Type 0
  pub Int : Type 0
  pub zero_double : Double
  pub stod : Bytes → Option Double
  pub stoi : Bytes → Option Int

-- A `robin_map`, as its entries: `find` gives the entry of a key, `emplace` changes nothing when there is one.
module _ {K V : Type 0} (same : K → K → Bool) where
  unfoldable pub find : K → List (K × V) → Option V
  find k [] = none
  find k (e ∷ es) = let later = find k es in if same e.0 k then some e.1 else later

  abbrev pub emplace_at : Option V → K → V → List (K × V) → List (K × V)
  emplace_at (some old) k v es = es
  emplace_at none k v es = es ++ ((k, v) ∷ [])

  unfoldable pub emplace : K → V → List (K × V) → List (K × V)
  emplace k v es = emplace_at (find k es) k v es

-- `operator[]` of a row, which gives an empty string for a column that is not there.
abbrev pub column : Bytes → RowMap → Bytes
column h row = elim (at_header h row) [ none ↦ [] | some field ↦ field ]

abbrev pub column_names : Row
column_names =
    codes "baseAsset"
    ∷ codes "quoteAsset"
    ∷ codes "symbol"
    ∷ codes "tickSize"
    ∷ codes "stepSize"
    ∷ codes "minPrice"
    ∷ codes "minQty"
    ∷ codes "maxNumOrders"
    ∷ []

abbrev pub id_eq : ℕ → ℕ → Bool
id_eq a b = a == b

module _ (numbers : Numbers) where
  open numbers use {Double, Int, zero_double, stod, stoi}

  pub record Instrument : Type 0 where
    pub symbol : Bytes
    pub id : ℕ
    pub tick_size : Double
    pub step_size : Double
    pub min_price : Double
    pub min_qty : Double
    pub max_num_orders : Int

  pub record InstrumentManager : Type 0 where
    pub id_to_instrument : List (ℕ × Instrument)
    pub symbol_to_instrument : List (Bytes × Instrument)
    pub new_product_id : ℕ

  abbrev pub no_instruments : InstrumentManager
  no_instruments = record { id_to_instrument = []; symbol_to_instrument = []; new_product_id = 0 }

  abbrev pub instrument_from :
      Bytes → ℕ → Option Double → Option Double → Option Double → Option Int → Option Instrument
  instrument_from s i (some tick) (some step) (some qty) (some orders) = some (record {
    symbol = s;
    id = i;
    tick_size = tick;
    step_size = step;
    min_price = zero_double;
    min_qty = qty;
    max_num_orders = orders;
  })
  instrument_from s i _ _ _ _ = none

  -- The instrument of a row; none where a number is not one. The file's minPrice is not read.
  unfoldable pub instrument_of : RowMap → ℕ → Option Instrument
  instrument_of row i =
      instrument_from (column (codes "symbol") row) i (stod (column (codes "tickSize") row))
        (stod (column (codes "stepSize") row)) (stod (column (codes "minQty") row))
        (stoi (column (codes "maxNumOrders") row))

  abbrev pub add_instrument : Instrument → InstrumentManager → InstrumentManager
  add_instrument x m = record {
    id_to_instrument = emplace id_eq m.new_product_id x m.id_to_instrument;
    symbol_to_instrument = emplace bytes_eq x.symbol x m.symbol_to_instrument;
    new_product_id = m.new_product_id + 1;
  }

  -- What a construction comes to: a read beyond the headers, which is undefined, an exception, or a manager.
  pub data Construction : Type 0 where
    out_of_fuel out_of_bounds threw : Construction
    built : InstrumentManager → Construction

  module _ (trim : Bytes → Bytes) (tokens : Bytes → List Bytes) where
    -- The constructor's loop, on the reader and on what is there already.
    unfoldable pub read_rows : ℕ → Reader → InstrumentManager → Construction
    read_rows zero r m = out_of_fuel
    read_rows (suc n) r m =
        let (row, rest) = read_map trim tokens r in
        elim row [
          | none ↦ out_of_bounds
          | some none ↦ built m
          | some (some fields) ↦ elim (instrument_of fields m.new_product_id) [
            | none ↦ threw
            | some x ↦ read_rows n rest (add_instrument x m)
          ]
        ]

    unfoldable pub instrument_manager : Bytes → Construction
    unfolding read_rows
    instrument_manager file =
        read_rows (length file + 1)
          (record { input = file; headers = column_names; with_header = true }) no_instruments

  -- The two `GetInstrument`; the symbol is looked up as a C string.
  unfoldable pub get_instrument : ℕ → InstrumentManager → Option Instrument
  get_instrument i m = find id_eq i m.id_to_instrument

  unfoldable pub get_instrument_by_symbol : Bytes → InstrumentManager → Option Instrument
  get_instrument_by_symbol s m = find bytes_eq (c_string s) m.symbol_to_instrument
