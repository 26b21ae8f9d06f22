-- ===== src/WebSocket/Sharing/Invariant.antt =====
-- What holds of the contexts and of the clients that share them.
use postboy.Prelude.{
  ℕ, ◌+◌, ◌<◌, ◌≡◌, ◌≢◌, refl, sym, subst, ◌∙◌, ◌⊎◌, inl, inr, Option, none, some, List, arith,
  get_elem?, true, update_at, update_at-cases,
}
use postboy.WebSocket.{Client, Context, Contexts}
use postboy.WebSocket.Sharing.{Clients, is_active, in_use}
use postboy.WebSocket.Sharing.Uses.{in_use_active}
use postboy.WebSocket.Sharing.Calls.{Entered}

-- A context that could not be made leaves an entry that counts one client too many, with no context.
abbrev pub Counted : Option Context → ℕ → Type 0
Counted none n = n ≡ 0
Counted (some k) n =
    ((k.clients_count ≡ n) × (n ≡ 0 → k.context ≡ none))
    ⊎ ((k.clients_count ≡ n + 1) × (k.context ≡ none))

abbrev pub Behind : Contexts → Client → ℕ → Type 0
Behind contexts c x = (k : Context) × (contexts c.ev_loop ≡ some k) × (k.context ≡ some x)

pub record Shared (w : Clients) : Type 0 where
  pub counted : (l : ℕ) → Counted (w.contexts l) (in_use l w.clients)
  pub held :
      (i : ℕ) (c : Client) (x : ℕ)
      → get_elem? w.clients i ≡ some c
      → is_active c ≡ true
      → c.context ≡ some x
      → Behind w.contexts c x

pub Shared-Entered :
    (w : Clients) (i : ℕ) (c : Client)
    → Shared w
    → get_elem? w.clients i ≡ some c
    → Entered c w.contexts
Shared-Entered w i c h e a = entered (w.contexts c.ev_loop) refl
  where
    entered :
        (o : Option Context)
        → w.contexts c.ev_loop ≡ o
        → (k : Context) × (w.contexts c.ev_loop ≡ some k) × (0 < k.clients_count)
    entered none is =
        let unused : in_use c.ev_loop w.clients ≡ 0 =
          subst (λ o. Counted o (in_use c.ev_loop w.clients)) is (h.counted c.ev_loop) in
        absurd (omega (arith, unused, in_use_active w.clients i c e a))
    entered (some k) is =
        let n = subst (λ o. Counted o (in_use c.ev_loop w.clients)) is (h.counted c.ev_loop) in
        (
          k,
          is,
          elim n [
            | inl (n, _) ↦ omega (arith, n, in_use_active w.clients i c e a)
            | inr (n, _) ↦ omega (arith, n)
          ],
        )

-- The same contexts, and as many clients that use them.
pub same_contexts :
    (w : Clients) (cs : List Client)
    → ((l : ℕ) → in_use l cs ≡ in_use l w.clients)
    → ((j : ℕ) (d : Client) (x : ℕ)
        → get_elem? cs j ≡ some d
        → is_active d ≡ true
        → d.context ≡ some x
        → Behind w.contexts d x)
    → Shared w
    → Shared (record { contexts = w.contexts; clients = cs })
same_contexts w cs n b h = record {
  counted = λ l. subst (Counted (w.contexts l)) (sym (n l)) (h.counted l);
  held = b;
}

-- The context of one loop is another, and only the clients of that loop change.
pub at_loop :
    (w : Clients) (l : ℕ) (k : Context) (cs : List Client)
    → Counted (some k) (in_use l cs)
    → ((m : ℕ) → l ≢ m → in_use m cs ≡ in_use m w.clients)
    → ((j : ℕ) (d : Client) (x : ℕ)
        → get_elem? cs j ≡ some d
        → is_active d ≡ true
        → d.context ≡ some x
        → ((d.ev_loop ≡ l) × (k.context ≡ some x)) ⊎ ((l ≢ d.ev_loop) × Behind w.contexts d x))
    → Shared w
    → Shared (record { contexts = update_at w.contexts l (some k); clients = cs })
at_loop w l k cs here_counted others b h = record {
  counted = λ m. elim (update_at-cases w.contexts l (some k) m) [
    | inl (same, now) ↦
        subst (λ o. Counted o (in_use m cs)) (sym now)
          (subst (λ m. Counted (some k) (in_use m cs)) same here_counted)
    | inr (ne, now) ↦
        subst (λ o. Counted o (in_use m cs)) (sym now)
          (subst (Counted (w.contexts m)) (sym (others m ne)) (h.counted m))
  ];
  held = λ j d x e a is. elim (b j d x e a is) [
    | inl (at, now) ↦ (
      k,
      elim (update_at-cases w.contexts l (some k) d.ev_loop) [
        | inl (_, f) ↦ f
        | inr (ne, _) ↦ absurd (ne (sym at))
      ],
      now,
    )
    | inr (ne, (k', there, now)) ↦ (
      k',
      elim (update_at-cases w.contexts l (some k) d.ev_loop) [
        | inl (at, _) ↦ absurd (ne at)
        | inr (_, f) ↦ f ∙ there
      ],
      now,
    )
  ];
}

pub none_used : (w : Clients) (l : ℕ) → Shared w → w.contexts l ≡ none → in_use l w.clients ≡ 0
none_used w l h e = subst (λ o. Counted o (in_use l w.clients)) e (h.counted l)
