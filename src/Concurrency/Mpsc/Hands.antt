-- ===== src/Concurrency/Mpsc/Hands.antt =====
-- The queue's lists, and what the producers hold beside them.
use postboy.Prelude.{
  ℕ, ◌+◌, ◌≡◌, ◌≢◌, ap, sym, ◌∙◌, inl, inr, Option, none, some, List, [], ◌++◌, Bool, true,
  update_at, update_at-cases,
}
use postboy.Intrusive.Chain.{Store}
use postboy.Intrusive.ForwardListOrder.{IsList}
use postboy.Concurrency.Mpsc.{Pusher, Taker}
use postboy.Concurrency.Mpsc.Nodes.{count, Linked, over}

-- The lists of the queue: popped already, being turned over, popped off the stack, on the stack.
pub record Lists : Type 0 where
  pub ready : List ℕ
  pub turned : List ℕ
  pub batch : List ℕ
  pub stacked : List ℕ

abbrev pub total : ℕ → Lists → ℕ
total a s = count a s.ready + (count a s.turned + (count a s.batch + count a s.stacked))

-- The pushed nodes that are not taken, oldest first.
abbrev pub pending : Lists → List ℕ
pending s = s.ready ++ (over s.batch s.turned ++ over s.stacked [])

-- The node in a producer's hand.
abbrev pub in_hand : Pusher → Option ℕ
in_hand Pusher.outside = none
in_hand (Pusher.loaded node head) = some node
in_hand (Pusher.linked node head) = some node

abbrev pub Batch : Store → Taker → Lists → Type 0
Batch next Taker.outside s = (s.turned ≡ []) × (s.batch ≡ [])
Batch next (Taker.reversing head result) s =
    Linked next head s.batch × IsList (next, result) s.turned × (s.ready ≡ [])

-- What the producers hold: nodes that no other holds and that are in no list, linked as they know.
pub record Hands (next : Store) (owned : ℕ → Bool) (pushers : ℕ → Pusher) (s : Lists) : Type 0 where
  pub held : (i n : ℕ) → in_hand (pushers i) ≡ some n → (n ≢ 0) × (owned n ≡ true) × (total n s ≡ 0)
  pub alone : (i j n : ℕ) → in_hand (pushers i) ≡ some n → in_hand (pushers j) ≡ some n → i ≡ j
  pub links : (i n h : ℕ) → pushers i ≡ Pusher.linked n h → next n ≡ h

-- A node in another's hand is left as it was.
abbrev pub Spared : (next other : Store) (owned' : ℕ → Bool) (s' : Lists) → ℕ → Type 0
Spared next other owned' s' n = (owned' n ≡ true) × (total n s' ≡ 0) × (other n ≡ next n)

-- One producer moves on; the nodes in the others' hands are left as they were.
module _ {next other : Store} {owned owned' : ℕ → Bool} {f : ℕ → Pusher} {s s' : Lists} where
  pub Hands-set :
      Hands next owned f s
      → (i : ℕ) (p : Pusher)
      → ((n : ℕ)
          → in_hand p ≡ some n
          → (n ≢ 0)
            × (owned' n ≡ true)
            × (total n s' ≡ 0)
            × ((j : ℕ) → i ≢ j → in_hand (f j) ≢ some n))
      → ((n h : ℕ) → p ≡ Pusher.linked n h → other n ≡ h)
      → ((j n : ℕ) → i ≢ j → in_hand (f j) ≡ some n → Spared next other owned' s' n)
      → Hands other owned' (update_at f i p) s'
  Hands-set v i p mine mine_linked spared = record { held = held; alone = alone; links = links }
    where
      held :
          (j n : ℕ)
          → in_hand (update_at f i p j) ≡ some n
          → (n ≢ 0) × (owned' n ≡ true) × (total n s' ≡ 0)
      held j n h = elim (update_at-cases f i p j) [
        | inl (e, t) ↦ let m = mine n (sym (ap in_hand t) ∙ h) in (m.0, m.1, m.2)
        | inr (ne, t) ↦
            let h' = sym (ap in_hand t) ∙ h in
            let old = v.held j n h' in let sp = spared j n ne h' in (old.0, sp.0, sp.1)
      ]

      alone :
          (j k n : ℕ)
          → in_hand (update_at f i p j) ≡ some n
          → in_hand (update_at f i p k) ≡ some n
          → j ≡ k
      alone j k n a b = elim (update_at-cases f i p j) [
        | inl (e, t) ↦ elim (update_at-cases f i p k) [
          | inl (e', t') ↦ sym e ∙ e'
          | inr (ne', t') ↦
              absurd ((mine n (sym (ap in_hand t) ∙ a)).3 k ne' (sym (ap in_hand t') ∙ b))
        ]
        | inr (ne, t) ↦ elim (update_at-cases f i p k) [
          | inl (e', t') ↦
              absurd ((mine n (sym (ap in_hand t') ∙ b)).3 j ne (sym (ap in_hand t) ∙ a))
          | inr (ne', t') ↦ v.alone j k n (sym (ap in_hand t) ∙ a) (sym (ap in_hand t') ∙ b)
        ]
      ]

      links : (j n h : ℕ) → update_at f i p j ≡ Pusher.linked n h → other n ≡ h
      links j n h e = elim (update_at-cases f i p j) [
        | inl (_, t) ↦ mine_linked n h (sym t ∙ e)
        | inr (ne, t) ↦ let e' = sym t ∙ e in (spared j n ne (ap in_hand e')).2 ∙ v.links j n h e'
      ]

  pub Hands-keep :
      Hands next owned f s
      → ((j n : ℕ) → in_hand (f j) ≡ some n → Spared next other owned' s' n)
      → Hands other owned' f s'
  Hands-keep v spared = record {
    held = λ j n h. let old = v.held j n h in let sp = spared j n h in (old.0, sp.0, sp.1);
    alone = v.alone;
    links = λ j n h e. (spared j n (ap in_hand e)).2 ∙ v.links j n h e;
  }
