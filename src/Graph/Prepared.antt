-- ===== src/Graph/Prepared.antt =====
-- src/postboy/prepared/prepared.cpp: postboys that run to their end before the graph is made.
use postboy.Prelude.{
  ℕ, zero, suc, ◌-◌, ◌^◌, ◌≡◌, refl, ap, sym, ◌∙◌, fun_ext, inl, inr, Bool-cases, List, [], ◌∷◌,
  ◌++◌, map, arith, replicate, ◌==◌, if◌then◌else◌, Bool, true, false, not, ◌&&◌, Bytes,
}

-- What the code asks of a processor here.
pub record PreparedConfig : Type 0 where
  pub name : Bytes
  pub is_takeable : Bool
  pub is_putable : Bool
  pub call_number : ℕ

pub data PreparedItemState : Type 0 where
  not_initialized initialized run end : PreparedItemState

-- What was asked of the processor of this name.
pub data PreparedCall : Type 0 where
  constructs init_metrics init process : Bytes → PreparedCall

pub record PreparedItem : Type 0 where
  pub config : PreparedConfig
  pub state : PreparedItemState

abbrev inf_call_number : ℕ
inf_call_number = 2 ^ 64 - 1

-- How code ends, with all calls made so far, first to last: with a value, with an exception, or by a failed ASSERT.
pub data Ending (A : Type 0) : Type 0 where
  returned : A → List PreparedCall → Ending A
  threw aborted : List PreparedCall → Ending A

abbrev pub and_then : {A B : Type 0} → Ending A → (A → List PreparedCall → Ending B) → Ending B
and_then (returned a calls) f = f a calls
and_then (threw calls) f = threw calls
and_then (aborted calls) f = aborted calls

abbrev pub fresh : PreparedConfig → PreparedItem
fresh c = record { config = c; state = not_initialized }

-- The constructor's three ENSUREs.
abbrev pub ensured : PreparedConfig → List PreparedCall → Ending PreparedItem
ensured c calls =
    if c.is_takeable
    then threw calls
    else if c.is_putable
    then threw calls
    else if c.call_number == inf_call_number
    then threw calls
    else returned (fresh c) calls

-- `throws` says whether the last of these calls throws. The destruction of items is not modelled.
module _ (throws : List PreparedCall → Bool) where
  abbrev pub call : PreparedCall → List PreparedCall → Ending (Unit {0})
  call c before =
      if throws (before ++ (c ∷ []))
      then threw (before ++ (c ∷ []))
      else returned tt (before ++ (c ∷ []))

  -- The constructor of an item.
  unfoldable pub make_item : PreparedConfig → List PreparedCall → Ending PreparedItem
  make_item c before = and_then (call (constructs c.name) before) (λ _ now. ensured c now)

  unfoldable pub init_item : PreparedItem → List PreparedCall → Ending PreparedItem
  init_item i before = elim i.state [
    | not_initialized ↦ and_then (call (init_metrics i.config.name) before) (λ _ now.
        and_then (call (init i.config.name) now)
          (λ _ later. returned (record i { state = initialized }) later))
    | _ ↦ aborted before
  ]

  unfoldable pub run_loop : ℕ → Bytes → List PreparedCall → Ending (Unit {0})
  run_loop zero name before = returned tt before
  run_loop (suc left) name before =
      and_then (call (process name) before) (λ _ now. run_loop left name now)

  unfoldable pub run_item : PreparedItem → List PreparedCall → Ending PreparedItem
  unfolding run_loop
  run_item i before = elim i.state [
    | initialized ↦
        and_then (run_loop i.config.call_number i.config.name before)
          (λ _ now. returned (record i { state = end }) now)
    | _ ↦ aborted before
  ]

  -- `CollectItems`.
  unfoldable pub collect_items :
      List PreparedConfig → List PreparedCall → Ending (List PreparedItem)
  unfolding make_item
  collect_items [] before = returned [] before
  collect_items (c ∷ cs) before =
      and_then (make_item c before)
        (λ i now. and_then (collect_items cs now) (λ is later. returned (i ∷ is) later))

  -- `Prepared::Run`.
  unfoldable pub run_items : List PreparedItem → List PreparedCall → Ending (Unit {0})
  unfolding init_item run_item
  run_items [] before = returned tt before
  run_items (i ∷ is) before =
      and_then (init_item i before)
        (λ ready now. and_then (run_item ready now) (λ _ later. run_items is later))

  -- `RunPrepared`.
  unfoldable pub run_prepared : List PreparedConfig → Ending (Unit {0})
  unfolding collect_items run_items
  run_prepared cs = and_then (collect_items cs []) (λ is now. run_items is now)

-- A processor that may be prepared.
abbrev pub acceptable : PreparedConfig → Bool
acceptable c = not c.is_takeable && (not c.is_putable && not (c.call_number == inf_call_number))

abbrev pub all_acceptable : List PreparedConfig → Bool
all_acceptable [] = true
all_acceptable (c ∷ cs) = acceptable c && all_acceptable cs

-- The configurations up to the first that is not acceptable, with it.
abbrev pub up_to_refused : List PreparedConfig → List PreparedConfig
up_to_refused [] = []
up_to_refused (c ∷ cs) = let later = up_to_refused cs in c ∷ (if acceptable c then later else [])

abbrev pub constructions : List PreparedConfig → List PreparedCall
constructions [] = []
constructions (c ∷ cs) = constructs c.name ∷ constructions cs

-- The calls of the items' runs.
abbrev pub whole_run : List PreparedConfig → List PreparedCall
whole_run [] = []
whole_run (c ∷ cs) =
    init_metrics c.name ∷ init c.name ∷ (replicate c.call_number (process c.name) ++ whole_run cs)

abbrev pub refused : Ending (Unit {0}) → Ending (Unit {0})
refused (returned _ calls) = threw calls
refused (threw calls) = threw calls
refused (aborted calls) = aborted calls

ensured_lem :
    (c : PreparedConfig) (calls : List PreparedCall)
    → ensured c calls ≡ (if acceptable c then returned (fresh c) calls else threw calls)
ensured_lem c calls = ground arith

module _ (throws : List PreparedCall → Bool) where
  -- Calls made one by one, up to the first that throws.
  unfoldable pub play : List PreparedCall → List PreparedCall → Ending (Unit {0})
  play [] before = returned tt before
  play (c ∷ cs) before = and_then (call throws c before) (λ _ now. play cs now)

  play-append :
      (ds bs before : List PreparedCall)
      → play (ds ++ bs) before ≡ and_then (play ds before) (λ _ now. play bs now)
  unfolding play
  play-append [] bs before = refl
  play-append (a ∷ ds) bs before = elim (Bool-cases (throws (before ++ (a ∷ [])))) [
    | inl e ↦ rw e refl
    | inr e ↦ rw e (play-append ds bs (before ++ (a ∷ [])))
  ]

  -- The items, or the exception that the first refused one throws.
  abbrev ItemsCollected : List PreparedConfig → List PreparedCall → Ending (List PreparedItem)
  ItemsCollected cs before =
      if all_acceptable cs
      then and_then (play (constructions cs) before) (λ _ now. returned (map fresh cs) now)
      else and_then (play (constructions (up_to_refused cs)) before) (λ _ now. threw now)

  same_ending :
      {A : Type 0} (b : Bool) (x y z : Ending A) → x ≡ y → x ≡ z → x ≡ (if b then y else z)
  same_ending true x y z e f = e
  same_ending false x y z e f = f

  one_more :
      (o : Ending (Unit {0})) (c : PreparedConfig) (cs : List PreparedConfig)
      → and_then
          (and_then o (λ _ now. returned (map fresh cs) now))
          (λ is later. returned (fresh c ∷ is) later)
        ≡ and_then o (λ _ now. returned (fresh c ∷ map fresh cs) now)
  one_more (returned _ calls) c cs = refl
  one_more (threw calls) c cs = refl
  one_more (aborted calls) c cs = refl

  none_more :
      (o : Ending (Unit {0})) (c : PreparedConfig)
      → and_then
          (and_then {B = List PreparedItem} o (λ _ now. threw now))
          (λ is later. returned (fresh c ∷ is) later)
        ≡ and_then o (λ _ now. threw now)
  none_more (returned _ calls) c = refl
  none_more (threw calls) c = refl
  none_more (aborted calls) c = refl

  -- The rest of the loop behind an item's construction.
  abbrev Rest :
      PreparedConfig → List PreparedConfig → Ending PreparedItem → Ending (List PreparedItem)
  Rest c cs o =
      and_then o
        (λ i now. and_then (collect_items throws cs now) (λ is later. returned (i ∷ is) later))

  collect_behind :
      (o : Ending (Unit {0})) (c : PreparedConfig) (cs : List PreparedConfig)
      → ((now : List PreparedCall) → collect_items throws cs now ≡ ItemsCollected cs now)
      → Rest c cs (and_then o (λ _ now. ensured c now)) ≡ (
          if acceptable c && all_acceptable cs
          then and_then
              (and_then o (λ _ now. play (constructions cs) now))
              (λ _ now. returned (map fresh (c ∷ cs)) now)
          else and_then
              (and_then o
                (λ _ now. play (constructions (if acceptable c then up_to_refused cs else [])) now))
              (λ _ now. threw now))
  unfolding play
  collect_behind (threw calls) c cs ih =
      same_ending (acceptable c && all_acceptable cs) _ _ _ refl refl
  collect_behind (aborted calls) c cs ih =
      same_ending (acceptable c && all_acceptable cs) _ _ _ refl refl
  collect_behind (returned _ calls) c cs ih =
      ap (Rest c cs) (ensured_lem c calls) ∙ elim (Bool-cases (acceptable c)) [
        | inr a ↦ rw a refl
        | inl a ↦ elim (Bool-cases (all_acceptable cs)) [
          | inl l ↦
              rw (a, l)
                (ap (λ o. and_then o (λ is later. returned (fresh c ∷ is) later)) (rw l at ih calls)
                  ∙ one_more (play (constructions cs) calls) c cs)
          | inr l ↦
              rw (a, l)
                (ap (λ o. and_then o (λ is later. returned (fresh c ∷ is) later)) (rw l at ih calls)
                  ∙ none_more (play (constructions (up_to_refused cs)) calls) c)
        ]
      ]

  collect_items_lem :
      (cs : List PreparedConfig) (before : List PreparedCall)
      → collect_items throws cs before ≡ ItemsCollected cs before
  unfolding collect_items make_item play
  collect_items_lem [] before = refl
  collect_items_lem (c ∷ cs) before =
      collect_behind (call throws (constructs c.name) before) c cs (collect_items_lem cs)

  run_loop_lem :
      (n : ℕ) (name : Bytes) (rest before : List PreparedCall)
      → and_then (run_loop throws n name before) (λ _ now. play rest now)
        ≡ play (replicate n (process name) ++ rest) before
  unfolding run_loop play
  run_loop_lem zero name rest before = refl
  run_loop_lem (suc n) name rest before =
      elim (Bool-cases (throws (before ++ (process name ∷ [])))) [
        | inl e ↦ rw e refl
        | inr e ↦ rw e (run_loop_lem n name rest (before ++ (process name ∷ [])))
      ]

  end_forgotten :
      (o : Ending (Unit {0})) (i : PreparedItem) (f : List PreparedCall → Ending (Unit {0}))
      → and_then (and_then o (λ _ now. returned i now)) (λ _ now. f now)
        ≡ and_then o (λ _ now. f now)
  end_forgotten (returned _ calls) i f = refl
  end_forgotten (threw calls) i f = refl
  end_forgotten (aborted calls) i f = refl

  run_items-fresh :
      (cs : List PreparedConfig) (before : List PreparedCall)
      → run_items throws (map fresh cs) before ≡ play (whole_run cs) before
  unfolding run_items init_item run_item play
  run_items-fresh [] before = refl
  run_items-fresh (c ∷ cs) before =
      let one = before ++ (init_metrics c.name ∷ []) in
      let two = one ++ (init c.name ∷ []) in
      elim (Bool-cases (throws one)) [
        | inl e ↦ rw e refl
        | inr e ↦ elim (Bool-cases (throws two)) [
          | inl h ↦ rw (e, h) refl
          | inr h ↦
              rw (e, h)
                (end_forgotten (run_loop throws c.call_number c.name two)
                    (record { config = c; state = end })
                    (λ now. run_items throws (map fresh cs) now)
                  ∙ ap (λ g. and_then (run_loop throws c.call_number c.name two) (λ _ now. g now))
                      (fun_ext (λ now. run_items-fresh cs now))
                  ∙ run_loop_lem c.call_number c.name (whole_run cs) two)
        ]
      ]

  finished_lem :
      (o : Ending (Unit {0})) (cs : List PreparedConfig)
      → and_then
          (and_then o (λ _ now. returned (map fresh cs) now))
          (λ is now. run_items throws is now)
        ≡ and_then o (λ _ now. play (whole_run cs) now)
  finished_lem (returned _ calls) cs = run_items-fresh cs calls
  finished_lem (threw calls) cs = refl
  finished_lem (aborted calls) cs = refl

  refused_lem :
      (o : Ending (Unit {0}))
      → and_then
          (and_then {B = List PreparedItem} o (λ _ now. threw now))
          (λ is now. run_items throws is now)
        ≡ refused o
  refused_lem (returned _ calls) = refl
  refused_lem (threw calls) = refl
  refused_lem (aborted calls) = refl

  -- Prepared postboys, whichever calls throw: when every one is without ports and makes a finite number of calls,
  -- the calls made are, up to the first that throws, the construction of all of them in order, and then for each
  -- in turn InitMetrics, Init and Process exactly callNumber times; otherwise they are the constructions up to the
  -- first one that is refused, or to one that throws, and then the exception is thrown, so that nothing is
  -- initialised or run.
  pub run_prepared_lem :
      (cs : List PreparedConfig)
      → run_prepared throws cs ≡ (
          if all_acceptable cs
          then play (constructions cs ++ whole_run cs) []
          else refused (play (constructions (up_to_refused cs)) []))
  unfolding run_prepared
  run_prepared_lem cs =
      ap (λ o. and_then o (λ is now. run_items throws is now)) (collect_items_lem cs [])
      ∙ elim (Bool-cases (all_acceptable cs)) [
        | inl e ↦ rw e (
            finished_lem (play (constructions cs) []) cs
            ∙ sym (play-append (constructions cs) (whole_run cs) []))
        | inr e ↦ rw e (refused_lem (play (constructions (up_to_refused cs)) []))
      ]
