-- ===== src/InstrumentManager/Consistency.antt =====
-- The two maps of the manager agree, and the reading ends.
use postboy.Prelude.{
  ℕ, zero, suc, ◌+◌, ◌≤◌, ◌<◌, ◌≡◌, ap, sym, subst, ◌∙◌, inl, inr, Option, none, some, List, arith,
  length, ==_iff, true, ℕ_discrete, Option-cases, Bytes, bytes_eq, bytes_eq→eq, bytes_eq_refl,
  c_string, ◌^◌,
}
use postboy.Csv.{RowMap, Reader, read_map}
use postboy.InstrumentManager.{
  Numbers, find, id_eq, Instrument, InstrumentManager, no_instruments, instrument_of,
  instrument_from, add_instrument, Construction, out_of_fuel, out_of_bounds, threw, built,
  read_rows, instrument_manager, get_instrument, get_instrument_by_symbol,
}
use postboy.InstrumentManager.Reading.{
  row-read_map, RowsFit, fresh_reader, read_map-fits, RowsFit-next,
}
use postboy.InstrumentManager.Maps.{find-emplace_old, find-emplace_self, find-emplace_cases}

-- The entry under a number has that number, the numbers given so far all have an entry, the entry under a symbol
-- has that symbol and is the one under its own number, and it is the first of the instruments with that symbol.
-- The entry under a symbol.
abbrev at_symbol :
    (numbers : Numbers) → Bytes → InstrumentManager numbers → Option (Instrument numbers)
at_symbol numbers s m = find bytes_eq s m.symbol_to_instrument

record Consistent {numbers : Numbers} (m : InstrumentManager numbers) : Type 0 where
  numbered :
      (i : ℕ) (x : Instrument numbers)
      → get_instrument numbers i m ≡ some x
      → (x.id ≡ i) × (i < m.new_product_id)
  dense :
      (i : ℕ)
      → i < m.new_product_id
      → (x : Instrument numbers) × (get_instrument numbers i m ≡ some x)
  named :
      (s : Bytes) (x : Instrument numbers)
      → at_symbol numbers s m ≡ some x
      → (x.symbol ≡ s) × (get_instrument numbers x.id m ≡ some x)
  first :
      (i : ℕ) (x : Instrument numbers)
      → get_instrument numbers i m ≡ some x
      → (y : Instrument numbers) × (at_symbol numbers x.symbol m ≡ some y) × (y.id ≤ i)

module _ (numbers : Numbers) where
  no_instruments-Consistent : Consistent (no_instruments numbers)
  unfolding find get_instrument
  no_instruments-Consistent = record {
    numbered = λ i x e. absurd (cc e);
    dense = λ i h. absurd (omega (arith, h));
    named = λ s x e. absurd (cc e);
    first = λ i x e. absurd (cc e);
  }

  id_eq_refl : (i : ℕ) → id_eq i i ≡ true
  id_eq_refl i = ground arith

  -- A new instrument stands under its number, and its symbol has an instrument that is no later one.
  added_by_id :
      (x : Instrument numbers) (m : InstrumentManager numbers)
      → Consistent m
      → get_instrument numbers m.new_product_id (add_instrument numbers x m) ≡ some x
  unfolding get_instrument
  added_by_id x m h =
      let n = m.new_product_id in
      let (y, self) = find-emplace_self id_eq n x m.id_to_instrument (id_eq_refl n) in
      elim (find-emplace_cases id_eq n n x m.id_to_instrument y self) [
        | inl old ↦ absurd (omega (arith, (h.numbered n y old).1))
        | inr (_, is) ↦ self ∙ ap some is
      ]

  added_by_symbol :
      (x : Instrument numbers) (m : InstrumentManager numbers)
      → x.id ≡ m.new_product_id
      → Consistent m
      → (z : Instrument numbers) × (at_symbol numbers x.symbol (add_instrument numbers x m)
          ≡ some z)
        × (z.id ≤ m.new_product_id)
  added_by_symbol x m new h =
      let symbols = m.symbol_to_instrument in
      let (z, by_name) = find-emplace_self bytes_eq x.symbol x symbols (bytes_eq_refl x.symbol) in
      let z_le : z.id ≤ m.new_product_id =
        elim (find-emplace_cases bytes_eq x.symbol x.symbol x symbols z by_name) [
          | inl old ↦
              let (_, under) = h.named x.symbol z old in omega (arith, (h.numbered z.id z under).1)
          | inr (_, is) ↦ omega (arith, ap (λ t. t.id) is, new)
        ] in
      (z, by_name, z_le)

  add_instrument-Consistent :
      (x : Instrument numbers) (m : InstrumentManager numbers)
      → x.id ≡ m.new_product_id
      → Consistent m
      → Consistent (add_instrument numbers x m)
  unfolding get_instrument
  add_instrument-Consistent x m new h =
      let n = m.new_product_id in
      let self = added_by_id x m h in
      let (z, by_name, z_le) = added_by_symbol x m new h in
      let own : get_instrument numbers x.id (add_instrument numbers x m) ≡ some x =
        subst (λ t. get_instrument numbers t (add_instrument numbers x m) ≡ some x) (sym new)
          self in
      record {
        numbered = λ i w e. elim (find-emplace_cases id_eq i n x m.id_to_instrument w e) [
          | inl old ↦ let (is, below) = h.numbered i w old in (is, omega (arith, below))
          | inr (at, is) ↦
              let i_n : n ≡ i = (==_iff n i).0 at in
              (ap (λ t. t.id) is ∙ new ∙ i_n, omega (arith, i_n))
        ];
        dense = λ i below. elim (ℕ_discrete i n) [
          | yes is ↦ (x, rw is self)
          | no ne ↦
              let (w, e) = h.dense i (omega (arith, below, ne)) in
              (w, find-emplace_old id_eq i n x m.id_to_instrument w e)
        ];
        named = λ s w e.
            elim (find-emplace_cases bytes_eq s x.symbol x m.symbol_to_instrument w e) [
              | inl old ↦
                  let (is, under) = h.named s w old in
                  (is, find-emplace_old id_eq w.id n x m.id_to_instrument w under)
              | inr (at, is) ↦ (
                ap (λ t. t.symbol) is ∙ bytes_eq→eq x.symbol s at,
                subst (λ t. get_instrument numbers t.id (add_instrument numbers x m) ≡ some t)
                    (sym is) own,
              )
            ];
        first = λ i w e. elim (find-emplace_cases id_eq i n x m.id_to_instrument w e) [
          | inl old ↦
              let (u, under, le) = h.first i w old in
              (u, find-emplace_old bytes_eq w.symbol x.symbol x m.symbol_to_instrument u under, le)
          | inr (at, is) ↦
              let i_n : n ≡ i = (==_iff n i).0 at in
              (
                z,
                subst (λ t. at_symbol numbers t.symbol (add_instrument numbers x m) ≡ some z)
                    (sym is) by_name,
                omega (arith, z_le, i_n),
              )
        ];
      }

  abbrev id_or : ℕ → Option (Instrument numbers) → ℕ
  id_or i none = i
  id_or i (some x) = x.id

  id-instrument_from :
      (s : Bytes) (i : ℕ) (a b c : Option numbers.Double) (d : Option numbers.Int)
      (x : Instrument numbers)
      → instrument_from numbers s i a b c d ≡ some x
      → x.id ≡ i
  id-instrument_from s i none b c d x e = absurd (cc e)
  id-instrument_from s i (some _) none c d x e = absurd (cc e)
  id-instrument_from s i (some _) (some _) none d x e = absurd (cc e)
  id-instrument_from s i (some _) (some _) (some _) none x e = absurd (cc e)
  id-instrument_from s i (some _) (some _) (some _) (some _) x e = ap (λ o. id_or i o) (sym e)

  id-instrument_of :
      (row : RowMap) (i : ℕ) (x : Instrument numbers)
      → instrument_of numbers row i ≡ some x
      → x.id ≡ i
  unfolding instrument_of
  id-instrument_of row i x e = id-instrument_from _ i _ _ _ _ x e

  -- What a manager promises: fewer than 2^31 numbers, an instrument under each number given and none under another,
  -- each with its number; and under a symbol, up to a zero byte, the first of the instruments with that symbol,
  -- which is the same one under its number, whenever there is one.
  pub record Promised (m : InstrumentManager numbers) : Type 0 where
    pub int_numbers : m.new_product_id < 2 ^ 31
    pub numbered :
        (i : ℕ) (x : Instrument numbers)
        → get_instrument numbers i m ≡ some x
        → (x.id ≡ i) × (i < m.new_product_id)
    pub dense :
        (i : ℕ)
        → i < m.new_product_id
        → (x : Instrument numbers) × (get_instrument numbers i m ≡ some x)
    pub named :
        (s : Bytes) (x : Instrument numbers)
        → get_instrument_by_symbol numbers s m ≡ some x
        → (x.symbol ≡ c_string s) × (get_instrument numbers x.id m ≡ some x)
    pub first :
        (s : Bytes) (i : ℕ) (x : Instrument numbers)
        → x.symbol ≡ c_string s
        → get_instrument numbers i m ≡ some x
        → (y : Instrument numbers) × (get_instrument_by_symbol numbers s m ≡ some y) × (y.id ≤ i)

  Consistent-Promised :
      (m : InstrumentManager numbers) → m.new_product_id < 2 ^ 31 → Consistent m → Promised m
  unfolding get_instrument_by_symbol
  Consistent-Promised m few c = record {
    int_numbers = few;
    numbered = c.numbered;
    dense = c.dense;
    named = λ s x e. c.named (c_string s) x e;
    first = λ s i x same e.
        let (y, at, le) = c.first i x e in (y, ap (λ t. at_symbol numbers t m) (sym same) ∙ at, le);
  }

  -- What holds of a construction: it ends without a read out of bounds, and a manager that it built is as `P`
  -- says.
  abbrev pub Ends : (InstrumentManager numbers → Type 0) → Construction numbers → Type 0
  Ends P out_of_fuel = ⊥
  Ends P out_of_bounds = ⊥
  Ends P threw = Unit {0}
  Ends P (built m) = P m

  abbrev Good : ℕ → InstrumentManager numbers → Type 0
  Good bound m = Consistent m × (m.new_product_id ≤ bound)

  Ends-mono :
      (P Q : InstrumentManager numbers → Type 0)
      → ((m : InstrumentManager numbers) → P m → Q m)
      → (k : Construction numbers) → Ends P k
      → Ends Q k
  Ends-mono P Q f threw h = tt
  Ends-mono P Q f (built m) h = f m h
  Ends-mono P Q f out_of_fuel h = absurd h
  Ends-mono P Q f out_of_bounds h = absurd h

  module _ (trim : Bytes → Bytes) (tokens : Bytes → List Bytes) where
    read_rows-Ends :
        (n : ℕ) (r : Reader) (m : InstrumentManager numbers) (bound : ℕ)
        → length r.input < n
        → m.new_product_id + length r.input ≤ bound
        → RowsFit trim tokens n r
        → Consistent m
        → Ends (Good bound) (read_rows numbers trim tokens n r m)
    unfolding read_rows
    read_rows-Ends zero r m bound h b fit c = absurd (omega (arith, h))
    read_rows-Ends (suc n) r m bound h b fit c = elim (Option-cases (read_map trim tokens r).0) [
      | inl e ↦ absurd (read_map-fits trim tokens n r fit e)
      | inr (o, e) ↦ elim (Option-cases o) [
        | inl last ↦ rw (Ends, e, last) (c, omega (arith, b))
        | inr (row, more) ↦ elim (Option-cases (instrument_of numbers row m.new_product_id)) [
          | inl bad ↦ rw (Ends, e, more, bad) tt
          | inr (x, one) ↦
              let less = row-read_map trim tokens r row (e ∙ ap some more) in
              rw (Ends, e, more, one)
                (read_rows-Ends n (read_map trim tokens r).1 (add_instrument numbers x m) bound
                  (omega (arith, h, less)) (omega (arith, b, less))
                  (RowsFit-next trim tokens n r row (e ∙ ap some more) fit)
                  (add_instrument-Consistent x m (id-instrument_of row m.new_product_id x one) c))
        ]
      ]
    ]

    -- On a file of fewer than 2^31 bytes whose rows, up to the first blank line, have no more fields than there are
    -- headers, the constructor ends and reads nothing out of bounds: with an exception, or with a manager in which
    -- the numbers given are those from zero on and fit an int, the instrument under a number has it, and under a
    -- symbol, up to a zero byte, stands the first one of those with that symbol, the same as under its number.
    pub instrument_manager-Ends :
        (file : Bytes)
        → length file < 2 ^ 31
        → RowsFit trim tokens (length file + 1) (fresh_reader file)
        → Ends Promised (instrument_manager numbers trim tokens file)
    unfolding instrument_manager
    instrument_manager-Ends file short fit =
        Ends-mono (Good (length file)) Promised
          (λ m g. Consistent-Promised m (omega (arith, short, g.1)) g.0) _
          (read_rows-Ends (length file + 1) _ (no_instruments numbers) (length file) (omega arith)
            (omega arith) fit no_instruments-Consistent)
