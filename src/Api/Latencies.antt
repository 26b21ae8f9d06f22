-- ===== src/Api/Latencies.antt =====
-- bin/api.cpp, GetPostboyLatencies: the percentiles of a sorted sample.
-- The double products truncate to the exact quotients for the sizes that a sample can have.
use postboy.Prelude.{
  ℕ, zero, suc, ◌+◌, ◌-◌, ◌*◌, ◌/◌, ◌%◌, ◌^◌, ◌≤◌, ◌<◌, ◌≡◌, refl, ap, ◌∙◌, Option, none, some,
  List, [], ◌∷◌, arith, length, get_elem?, leb, ◌==◌, if◌then◌else◌, false,
}

-- `std::sort`.
abbrev pub insert : ℕ → List ℕ → List ℕ
insert x [] = x ∷ []
insert x (y ∷ ys) = let later = insert x ys in if leb x y then x ∷ y ∷ ys else y ∷ later

unfoldable pub sort : List ℕ → List ℕ
sort [] = []
sort (x ∷ xs) = insert x (sort xs)

-- `std::accumulate` from `0ULL`.
unfoldable pub accumulate : ℕ → List ℕ → ℕ
accumulate total [] = total
accumulate total (x ∷ xs) = accumulate ((total + x) % 2 ^ 64) xs

-- The fields of the answer; `none` is a JSON null.
pub record Report : Type 0 where
  pub p50 : Option ℕ
  pub p90 : Option ℕ
  pub p95 : Option ℕ
  pub p99 : Option ℕ
  pub p100 : Option ℕ
  pub avg : Option ℕ

-- `latencies[size * percent / 100]`; `none` is also a read out of bounds.
abbrev pub at_percent : List ℕ → ℕ → Option ℕ
at_percent latencies percent = get_elem? latencies (length latencies * percent / 100)

abbrev pub back : List ℕ → Option ℕ
back xs = get_elem? xs (length xs - 1)

unfoldable pub report : List ℕ → Report
unfolding sort accumulate
report sample =
    let latencies = sort sample in
    let size = length latencies in
    record {
      p50 = if size == 0 then none else at_percent latencies 50;
      p90 = if size == 0 then none else at_percent latencies 90;
      p95 = if size == 0 then none else at_percent latencies 95;
      p99 = if size == 0 then none else at_percent latencies 99;
      p100 = if size == 0 then none else back latencies;
      avg = if size == 0 then none else some (accumulate 0 latencies / size);
    }

-- Each value is at most the next.
abbrev pub Ascending : List ℕ → Type 0
Ascending [] = Unit {0}
Ascending (x ∷ []) = Unit {0}
Ascending (x ∷ y ∷ ys) = (x ≤ y) × Ascending (y ∷ ys)

insert-Ascending : (x : ℕ) (ys : List ℕ) → Ascending ys → Ascending (insert x ys)
insert-Ascending x [] h = tt
insert-Ascending x (y ∷ []) h = ground arith
insert-Ascending x (y ∷ z ∷ zs) h = let rest = insert-Ascending x (z ∷ zs) h.1 in ground arith

sort-Ascending : (xs : List ℕ) → Ascending (sort xs)
unfolding sort
sort-Ascending [] = tt
sort-Ascending (x ∷ xs) = insert-Ascending x (sort xs) (sort-Ascending xs)

length-insert : (x : ℕ) (ys : List ℕ) → length (insert x ys) ≡ suc (length ys)
length-insert x [] = refl
length-insert x (y ∷ ys) = ground (arith, length-insert x ys)

pub length-sort : (xs : List ℕ) → length (sort xs) ≡ length xs
unfolding sort
length-sort [] = refl
length-sort (x ∷ xs) = length-insert x (sort xs) ∙ ap suc (length-sort xs)

-- Within an ascending list, an earlier element is at most a later one.
Ascending-head :
    (x : ℕ) (xs : List ℕ) (j : ℕ)
    → Ascending (x ∷ xs)
    → j < suc (length xs)
    → (b : ℕ) × (get_elem? (x ∷ xs) j ≡ some b) × (x ≤ b)
Ascending-head x xs zero h lt = (x, refl, omega arith)
Ascending-head x [] (suc j) h lt = absurd (omega arith)
Ascending-head x (y ∷ ys) (suc j) h lt =
    let (b, found, le) = Ascending-head y ys j h.1 (omega arith) in
    (b, found, omega (arith, h.0, le))

abbrev pub Ordered : List ℕ → ℕ → ℕ → Type 0
Ordered xs i j = (a : ℕ) × (b : ℕ) × (get_elem? xs i ≡ some a) × (get_elem? xs j ≡ some b) × (a ≤ b)

Ascending-tail : (x : ℕ) (xs : List ℕ) → Ascending (x ∷ xs) → Ascending xs
Ascending-tail x [] h = tt
Ascending-tail x (y ∷ ys) h = h.1

Ascending-Ordered : (xs : List ℕ) (i j : ℕ) → Ascending xs → i ≤ j → j < length xs → Ordered xs i j
Ascending-Ordered [] i j h le lt = absurd (omega arith)
Ascending-Ordered (x ∷ xs) zero j h le lt =
    let (b, found, x_le) = Ascending-head x xs j h lt in (x, b, refl, found, x_le)
Ascending-Ordered (x ∷ xs) (suc i) zero h le lt = absurd (omega arith)
Ascending-Ordered (x ∷ xs) (suc i) (suc j) h le lt =
    Ascending-Ordered xs i j (Ascending-tail x xs h) (omega arith) (omega arith)

pub sort-Ordered : (xs : List ℕ) (i j : ℕ) → i ≤ j → j < length xs → Ordered (sort xs) i j
sort-Ordered xs i j le lt =
    Ascending-Ordered (sort xs) i j (sort-Ascending xs) le (omega (arith, length-sort xs, lt))

-- The fields of a report, each at most the next.
abbrev pub Rising : Report → Type 0
Rising r =
    (a : ℕ) × (b : ℕ) × (c : ℕ) × (d : ℕ) × (e : ℕ) × (r.p50 ≡ some a)
    × (r.p90 ≡ some b)
    × (r.p95 ≡ some c)
    × (r.p99 ≡ some d)
    × (r.p100 ≡ some e)
    × (a ≤ b)
    × (b ≤ c)
    × (c ≤ d)
    × (d ≤ e)

sorted-Rising :
    (xs : List ℕ)
    → Ascending xs
    → 0 < length xs
    → (a : ℕ) × (b : ℕ) × (c : ℕ) × (d : ℕ) × (e : ℕ) × (at_percent xs 50 ≡ some a)
      × (at_percent xs 90 ≡ some b)
      × (at_percent xs 95 ≡ some c)
      × (at_percent xs 99 ≡ some d)
      × (back xs ≡ some e)
      × (a ≤ b)
      × (b ≤ c)
      × (c ≤ d)
      × (d ≤ e)
sorted-Rising xs h pos =
    let n = length xs in
    let (a, b, fa, fb, ab) =
      Ascending-Ordered xs (n * 50 / 100) (n * 90 / 100) h (omega arith) (omega arith) in
    let (b', c, fb', fc, bc) =
      Ascending-Ordered xs (n * 90 / 100) (n * 95 / 100) h (omega arith) (omega arith) in
    let (c', d, fc', fd, cd) =
      Ascending-Ordered xs (n * 95 / 100) (n * 99 / 100) h (omega arith) (omega arith) in
    let (d', e, fd', fe, de) =
      Ascending-Ordered xs (n * 99 / 100) (n - 1) h (omega arith) (omega arith) in
    let sb : b' ≡ b = cc (fb', fb) in
    let sc : c' ≡ c = cc (fc', fc) in
    let sd : d' ≡ d = cc (fd', fd) in
    (
      a,
      b,
      c,
      d,
      e,
      fa,
      fb,
      fc,
      fd,
      fe,
      ab,
      omega (arith, sb, bc),
      omega (arith, sc, cd),
      omega (arith, sd, de),
    )

-- Of a sample that is not empty, GetPostboyLatencies answers five values that are there, from the median
-- to the maximum, each at most the next.
report-Rising : (sample : List ℕ) → 0 < length sample → Rising (report sample)
unfolding report
report-Rising sample pos =
    let some_left : 0 < length (sort sample) = omega (arith, length-sort sample, pos) in
    let full : (length (sort sample) == 0) ≡ false = ground arith in
    rw full (sorted-Rising (sort sample) (sort-Ascending sample) some_left)
