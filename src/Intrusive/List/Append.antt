-- ===== src/Intrusive/List/Append.antt =====
-- Appending one list to another, and unlinking all nodes.
use postboy.Prelude.{
  ℕ, zero, suc, ◌<◌, ◌≡◌, ◌≢◌, refl, ap, ap₂, sym, subst, ◌∙◌, some, List, [], ◌∷◌, ◌++◌,
  append-nil, arith, length, get_or, ◌==◌, true, false, either_way,
}
use postboy.Intrusive.Chain.{assign, mem, Distinct, last, mem-last}
use postboy.Intrusive.List.{Links, unlink, is_empty, append, unlink_from}
use postboy.Intrusive.List.Segments.{Segment, prev-last}
use postboy.Intrusive.List.Order.{IsList, unlink-IsList}

-- A segment whose last node leads to another node.
Segment-end :
    (l m : Links) (a : ℕ) (xs : List ℕ) (b end : ℕ)
    → Distinct (a ∷ xs)
    → ((c : ℕ) → mem c (a ∷ xs) ≡ true → c ≢ last a xs → m.next c ≡ l.next c)
    → ((c : ℕ) → mem c xs ≡ true → m.prev c ≡ l.prev c)
    → m.next (last a xs) ≡ end
    → m.prev end ≡ last a xs
    → Segment l a xs b
    → Segment m a xs end
Segment-end l m a [] b end d nexts prevs n p s = (n, p)
Segment-end l m a (x ∷ xs) b end d nexts prevs n p s =
    let there = mem-last x xs in
    let apart : a ≢ last x xs = λ e. ground (arith, e, there, d.1) in
    (
      nexts a (ground arith) apart ∙ s.0,
      prevs x (ground arith) ∙ s.1,
      Segment-end l m x xs b end d.2 (λ c k ne. nexts c (ground (arith, k)) ne)
          (λ c k. prevs c (ground (arith, k))) n p s.2,
    )

Segment-append :
    (l : Links) (a : ℕ) (xs : List ℕ) (y : ℕ) (ys : List ℕ) (b : ℕ)
    → Segment l a xs y
    → Segment l y ys b
    → Segment l a (xs ++ (y ∷ ys)) b
Segment-append l a [] y ys b s t = (s.0, s.1, t)
Segment-append l a (x ∷ xs) y ys b s t = (s.0, s.1, Segment-append l x xs y ys b s.2 t)

-- Two lists that have no node in common.
pub record Rings (head that : ℕ) (l : Links) (xs ys : List ℕ) : Type 0 where
  pub first : Segment l head xs head
  pub second : Segment l that ys that
  pub first_distinct : Distinct (head ∷ xs)
  pub second_distinct : Distinct (that ∷ ys)
  pub apart : (c : ℕ) → mem c (head ∷ xs) ≡ true → mem c (that ∷ ys) ≡ false

-- The links behind `Append`, by the front and the back that it found.
abbrev joined : ℕ → ℕ → Links → ℕ → ℕ → ℕ → ℕ → Links
joined head that l front that_back before back = record {
  prev = assign (assign (assign l.prev front before) head that_back) that that;
  next = assign (assign (assign l.next that_back head) back front) that that;
}

append-joined :
    (head that : ℕ) (l : Links) (xs : List ℕ) (y : ℕ) (ys : List ℕ)
    → Rings head that l xs (y ∷ ys)
    → append head that l ≡ joined head that l y (last y ys) (last head xs) (last head xs)
unfolding append
append-joined head that l xs y ys r =
    let front = r.second.0 in
    let that_back = prev-last l that (y ∷ ys) that r.second in
    let before = prev-last l head xs head r.first in
    let full : is_empty that l ≡ false = ground (arith, front, r.second_distinct) in
    let ne : y ≢ head = λ e. ground (arith, e, r.apart head (ground arith)) in
    let back : assign l.prev (l.next that) (l.prev head) head ≡ last head xs =
      ground (arith, ne, front, before) in
    either_way (λ m. m ≡ joined head that l y (last y ys) (last head xs) (last head xs))
      (is_empty that l) l
      (joined head that l (l.next that) (l.prev that) (l.prev head)
        (assign l.prev (l.next that) (l.prev head) head))
      (λ e. absurd (cc (full, e)))
      (λ _.
        ap₂ (λ f b. joined head that l f (l.prev that) (l.prev head) b) front back
        ∙ ap₂ (λ t b. joined head that l y t b (last head xs)) that_back before)

joined-Segment :
    (head that : ℕ) (l : Links) (xs : List ℕ) (y : ℕ) (ys : List ℕ)
    → Rings head that l xs (y ∷ ys)
    → Segment
        (joined head that l y (last y ys) (last head xs) (last head xs))
        head
        (xs ++ (y ∷ ys))
        head
joined-Segment head that l xs y ys r =
    let m = joined head that l y (last y ys) (last head xs) (last head xs) in
    let a = mem-last head xs in
    let b = mem-last y ys in
    let far : (c : ℕ) → mem c (head ∷ xs) ≡ true → mem c (that ∷ y ∷ ys) ≡ false = r.apart in
    let apart_ends : last head xs ≢ last y ys =
      λ e. ground (arith, e, a, b, far (last head xs) a) in
    Segment-append m head xs y ys head
      (Segment-end l m head xs head y r.first_distinct
        (λ c k ne.
          let out = far c k in
          let other : c ≢ last y ys = λ e. ground (arith, e, b, out) in
          ground (arith, ne, out, other))
        (λ c k. ground (arith, k, far c (ground (arith, k)), r.first_distinct))
        (ground (arith, far (last head xs) a))
        (ground (arith, far head (ground arith), r.second_distinct)) r.first)
      (Segment-end l m y ys that head r.second_distinct.2
        (λ c k ne.
          let other : c ≢ last head xs = λ e. ground (arith, e, k, far (last head xs) a) in
          ground (arith, ne, other, k, r.second_distinct))
        (λ c k. ground (arith, k, far head (ground arith), r.second_distinct))
        (let front : that ≢ last y ys = λ e. ground (arith, e, b, r.second_distinct) in
          ground (arith, front, apart_ends))
        (ground (arith, far head (ground arith))) r.second.2)

append-nothing : (head that : ℕ) (l : Links) → l.next that ≡ that → append head that l ≡ l
unfolding append
append-nothing head that l e =
    let empty : is_empty that l ≡ true = ground (arith, e) in rw empty refl

-- Append gives the first list the nodes of the second, behind its own and in their order, and leaves the second
-- one empty, where the two have no node in common.
pub append-Segment :
    (head that : ℕ) (l : Links) (xs ys : List ℕ)
    → Rings head that l xs ys
    → Segment (append head that l) head (xs ++ ys) head × Segment (append head that l) that [] that
append-Segment head that l xs [] r =
    rw (append-nothing head that l r.second.0, append-nil xs) (r.first, r.second)
append-Segment head that l xs (y ∷ ys) r =
    subst (λ m. Segment m head (xs ++ (y ∷ ys)) head × Segment m that [] that)
      (sym (append-joined head that l xs y ys r))
      (joined-Segment head that l xs y ys r, (ground arith, ground arith))

Segment-front :
    (l : Links) (a : ℕ) (xs : List ℕ) (b : ℕ) → Segment l a xs b → l.next a ≡ get_or xs 0 b
Segment-front l a [] b s = s.0
Segment-front l a (x ∷ xs) b s = s.0

unlink_from_end :
    (n head current : ℕ) (l : Links) → current ≡ head → unlink_from (suc n) head current l ≡ some l
unfolding unlink_from
unlink_from_end n head current l e =
    let same : (current == head) ≡ true = ground (arith, e) in
    ap
      (λ b. elim b [
        | true ↦ some l
        | false ↦ unlink_from n head (l.next current) (unlink current l)
      ])
      same

unlink_from_more :
    (n head current : ℕ) (l : Links)
    → current ≢ head
    → unlink_from (suc n) head current l ≡ unlink_from n head (l.next current) (unlink current l)
unfolding unlink_from
unlink_from_more n head current l ne =
    let other : (current == head) ≡ false = ground (arith, ne) in
    ap
      (λ b. elim b [
        | true ↦ some l
        | false ↦ unlink_from n head (l.next current) (unlink current l)
      ])
      other

-- From the front of a list, UnlinkAll ends within one round more than there are nodes, and leaves the list
-- empty and every node without links.
unlink_from-IsList :
    (n head : ℕ) (l : Links) (xs : List ℕ)
    → length xs < n
    → IsList head l xs
    → (m : Links) × (unlink_from n head (l.next head) l ≡ some m) × IsList head m []
unlink_from-IsList zero head l xs h v = absurd (omega (arith, h))
unlink_from-IsList (suc n) head l [] h v = (l, unlink_from_end n head (l.next head) l v.ring.0, v)
unlink_from-IsList (suc n) head l (x ∷ xs) h v =
    let front = v.ring.0 in
    let other : x ≢ head = λ e. ground (arith, e, v.distinct.1) in
    let is = unlink-IsList head x l [] xs v in
    let behind : l.next x ≡ (unlink x l).next head =
      Segment-front l x xs head v.ring.2 ∙ sym (Segment-front (unlink x l) head xs head is.ring) in
    let (m, done, empty) = unlink_from-IsList n head (unlink x l) xs (omega (arith, h)) is in
    (
      m,
      ap (λ c. unlink_from (suc n) head c l) front
          ∙ unlink_from_more n head x l other
          ∙ ap (λ c. unlink_from n head c (unlink x l)) behind
          ∙ done,
      empty,
    )
