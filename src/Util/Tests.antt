-- ===== src/Util/Tests.antt =====
-- Quantiles of four values.
use postboy.Prelude.{ℕ, ◌≡◌, some, List, [], ◌∷◌, map, arith}
use postboy.Util.Quantiles.{calculate, ranked, calculate_lem}

abbrev four : List ℕ
four = 10 ∷ 20 ∷ 30 ∷ 40 ∷ []

calculate_lem_example :
    calculate four (0 ∷ 50 ∷ 100 ∷ []) ≡ some (map (ranked four 0) (0 ∷ 50 ∷ 100 ∷ []))
calculate_lem_example =
    calculate_lem four 0 (0 ∷ 50 ∷ 100 ∷ []) (omega arith) (omega arith) (omega arith)
      (omega arith, (omega arith, (omega arith, tt)))
