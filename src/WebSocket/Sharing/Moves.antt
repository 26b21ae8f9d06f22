-- ===== src/WebSocket/Sharing/Moves.antt =====
-- Each effect of an operation keeps what holds of the contexts.
use postboy.Prelude.{
  ℕ, ◌+◌, ◌-◌, ◌<◌, ◌≡◌, refl, ap, ap₂, sym, subst, ◌∙◌, inl, inr, Option, none, some, List, arith,
  get_elem?, set, ◌==◌, if◌then◌else◌, true, false, ◌&&◌, ℕ_discrete, Bool-cases, update_at,
}
use postboy.WebSocket.{Client, Context, put_context, connecting_with, released}
use postboy.WebSocket.Sharing.{Clients, is_active, remove_at, uses, in_use}
use postboy.WebSocket.Sharing.Uses.{
  uses_idle, uses_self, uses_elsewhere, in_use-set, in_use-remove_at, in_use_active,
  get_elem?-set_cases, get_elem?-remove_at_cases,
}
use postboy.WebSocket.Sharing.Effects.{Kept}
use postboy.WebSocket.Sharing.Invariant.{Counted, Shared, same_contexts, at_loop, none_used}

last_released : (k : Context) → k.clients_count - 1 ≡ 0 → (released k).context ≡ none
last_released k e = let z : (k.clients_count - 1 == 0) ≡ true = ground (arith, e) in rw z refl

kept_released : (k : Context) → 1 < k.clients_count → (released k).context ≡ k.context
kept_released k e = let z : (k.clients_count - 1 == 0) ≡ false = ground (arith, e) in rw z refl

still_none : (k : Context) → k.context ≡ none → (released k).context ≡ none
still_none k e = elim (Bool-cases (k.clients_count - 1 == 0)) [ inl z ↦ rw z refl | inr z ↦ rw z e ]

module _ (w : Clients) (i : ℕ) (c : Client) (h : Shared w)
    (there : get_elem? w.clients i ≡ some c) where
  pub keeps-Shared :
      (d : Client)
      → Kept c d
      → Shared (record { contexts = w.contexts; clients = set w.clients i d })
  keeps-Shared d kept =
      let same = λ (l : ℕ).
        let e : uses l d ≡ uses l c =
          ap₂ (λ m b. if m == l && b then 1 else 0) kept.loop_kept kept.active_kept in
        let n : in_use l (set w.clients i d) ≡ in_use l w.clients =
          omega (arith, e, in_use-set l w.clients i c d there) in
        n in
      same_contexts w (set w.clients i d) same
        (λ j b x e a is. elim (get_elem?-set_cases w.clients i j d b e) [
          | inr old ↦ h.held j b x old a is
          | inl b_d ↦
              let (k, f, g) =
                h.held i c x there (sym kept.active_kept ∙ ap is_active (sym b_d) ∙ a)
                  (sym kept.context_kept ∙ ap (λ b. b.context) (sym b_d) ∙ is) in
              (k, ap w.contexts (ap (λ b. b.ev_loop) b_d ∙ kept.loop_kept) ∙ f, g)
        ])
        h

  pub goes-Shared :
      is_active c ≡ false
      → Shared (record { contexts = w.contexts; clients = remove_at i w.clients })
  goes-Shared idle =
      same_contexts w (remove_at i w.clients)
        (λ l. omega (arith, in_use-remove_at l w.clients i c there, uses_idle l c idle))
        (λ j b x e a is.
          let (k, f) = get_elem?-remove_at_cases w.clients i j b e in h.held k b x f a is)
        h

  -- A client that is not active is put back or connects, on a loop with a new entry.
  enters-Shared :
      (d : Client) (k : Context)
      → is_active c ≡ false
      → d.ev_loop ≡ c.ev_loop
      → Counted (some k) (in_use c.ev_loop w.clients + uses c.ev_loop d)
      → ((x : ℕ) → is_active d ≡ true → d.context ≡ some x → k.context ≡ some x)
      → ((j : ℕ) (b : Client) (x : ℕ)
          → get_elem? w.clients j ≡ some b
          → is_active b ≡ true
          → b.context ≡ some x
          → c.ev_loop ≡ b.ev_loop
          → k.context ≡ some x)
      → Shared (record {
        contexts = update_at w.contexts c.ev_loop (some k);
        clients = set w.clients i d;
      })
  enters-Shared d k idle loop n own old =
      let now : in_use c.ev_loop (set w.clients i d)
          ≡ in_use c.ev_loop w.clients + uses c.ev_loop d =
        omega (arith, in_use-set c.ev_loop w.clients i c d there, uses_idle c.ev_loop c idle) in
      at_loop w c.ev_loop k (set w.clients i d) (subst (Counted (some k)) (sym now) n)
        (λ m ne. omega (
          arith,
          in_use-set m w.clients i c d there,
          uses_idle m c idle,
          uses_elsewhere m d (λ e. ne (sym loop ∙ e)),
        ))
        (λ j b x e a is. elim (get_elem?-set_cases w.clients i j d b e) [
          | inl b_d ↦ inl (
            ap (λ b. b.ev_loop) b_d ∙ loop,
            own x (ap is_active (sym b_d) ∙ a) (ap (λ b. b.context) (sym b_d) ∙ is),
          )
          | inr was ↦ elim (ℕ_discrete c.ev_loop b.ev_loop) [
            | yes at ↦ inl (sym at, old j b x was a is at)
            | no ne ↦ inr (ne, h.held j b x was a is)
          ]
        ])
        h

  nobody :
      w.contexts c.ev_loop ≡ none
      → (o : Option ℕ) (j : ℕ) (b : Client) (x : ℕ) → get_elem? w.clients j ≡ some b
      → is_active b ≡ true
      → b.context ≡ some x
      → c.ev_loop ≡ b.ev_loop
      → o ≡ some x
  nobody free o j b x e a is at = absurd (
      omega (
        arith,
        none_used w b.ev_loop h (ap w.contexts (sym at) ∙ free),
        in_use_active w.clients j b e a,
      ))

  pub fails-Shared :
      is_active c ≡ false
      → w.contexts c.ev_loop ≡ none
      → Shared (record {
        contexts = put_context c.ev_loop none 1 w.contexts;
        clients = set w.clients i c;
      })
  fails-Shared idle free =
      enters-Shared c (record { context = none; clients_count = 1 }) idle refl
        (inr (omega (arith, none_used w c.ev_loop h free, uses_idle c.ev_loop c idle), refl))
        (λ x a is. absurd (cc (idle, a))) (nobody free _)

  pub starts-Shared :
      (x : ℕ)
      → is_active c ≡ false
      → w.contexts c.ev_loop ≡ none
      → Shared (record {
        contexts = put_context c.ev_loop (some x) 1 w.contexts;
        clients = set w.clients i (connecting_with (some x) c);
      })
  starts-Shared x idle free =
      let one = uses_self (connecting_with (some x) c) refl in
      enters-Shared (connecting_with (some x) c) (record { context = some x; clients_count = 1 })
        idle refl
        (inl
          (omega (arith, none_used w c.ev_loop h free, one), λ e. absurd (omega (arith, one, e))))
        (λ y a is. is) (nobody free _)

  pub joins-Shared :
      (k : Context)
      → is_active c ≡ false
      → w.contexts c.ev_loop ≡ some k
      → Shared (record {
        contexts = put_context c.ev_loop k.context (k.clients_count + 1) w.contexts;
        clients = set w.clients i (connecting_with k.context c);
      })
  joins-Shared k idle e =
      let one = uses_self (connecting_with k.context c) refl in
      enters-Shared (connecting_with k.context c)
        (record { context = k.context; clients_count = k.clients_count + 1 }) idle refl
        (elim (subst (λ o. Counted o (in_use c.ev_loop w.clients)) e (h.counted c.ev_loop)) [
          | inl (n, _) ↦ inl (omega (arith, n, one), λ z. absurd (omega (arith, one, z)))
          | inr (n, no_context) ↦ inr (omega (arith, n, one), no_context)
        ])
        (λ y a is. is)
        (λ j b x was a is at.
          let (l, f, g) = h.held j b x was a is in
          let same : k ≡ l = let t : some k ≡ some l = sym e ∙ ap w.contexts at ∙ f in cc t in
          ap (λ k. k.context) same ∙ g)

  pub releases-Shared :
      (cs : List Client) (k : Context)
      → is_active c ≡ true
      → w.contexts c.ev_loop ≡ some k
      → 0 < k.clients_count
      → ((l : ℕ) → in_use l cs + uses l c ≡ in_use l w.clients)
      → ((j : ℕ) (b : Client)
          → get_elem? cs j ≡ some b
          → is_active b ≡ true
          → (m : ℕ) × (get_elem? w.clients m ≡ some b))
      → Shared
          (record { contexts = update_at w.contexts c.ev_loop (some (released k)); clients = cs })
  releases-Shared cs k a e positive n was =
      let one_less : in_use c.ev_loop cs + 1 ≡ in_use c.ev_loop w.clients =
        omega (arith, n c.ev_loop, uses_self c a) in
      let before = subst (λ o. Counted o (in_use c.ev_loop w.clients)) e (h.counted c.ev_loop) in
      at_loop w c.ev_loop (released k) cs
        (elim before [
          | inl (count, _) ↦ inl (
            omega (arith, count, one_less),
            λ z. last_released k (omega (arith, count, one_less, z)),
          )
          | inr (count, no_context) ↦
              inr (omega (arith, count, one_less, positive), still_none k no_context)
        ])
        (λ m ne. omega (arith, n m, uses_elsewhere m c ne))
        (λ j b x there' active is.
          let (m, old) = was j b there' active in
          let (l, f, g) = h.held m b x old active is in
          elim (ℕ_discrete c.ev_loop b.ev_loop) [
            | no ne ↦ inr (ne, (l, f, g))
            | yes at ↦
                let same : k ≡ l = let t : some k ≡ some l = sym e ∙ ap w.contexts at ∙ f in cc t in
                let with_context : k.context ≡ some x = ap (λ k. k.context) same ∙ g in
                let used : 0 < in_use c.ev_loop cs =
                  subst (λ l. 0 < in_use l cs) (sym at) (in_use_active cs j b there' active) in
                inl (
                  sym at,
                  elim before [
                    | inl (count, _) ↦
                        kept_released k (omega (arith, count, one_less, used)) ∙ with_context
                    | inr (_, no_context) ↦ absurd (cc (no_context, with_context))
                  ],
                )
          ])
        h
