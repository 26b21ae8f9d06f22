-- ===== src/WebSocket/Sharing/Counts.antt =====
-- A context's count is the number of the clients that use it.
use postboy.Prelude.{
  ℕ, ◌<◌, ◌≡◌, ◌≢◌, refl, ap, sym, subst, ◌∙◌, inl, inr, none, some, [], ◌∷◌, ◌++◌, arith,
  get_elem?, set, true, ℕ_discrete,
}
use postboy.WebSocket.{Client, client, Context, Contexts, Outcome, aborted}
use postboy.WebSocket.Sharing.{
  Clients, Act, act, is_active, is_allowed, remove_at, settle, Reach, here, creates, acts, in_use,
}
use postboy.WebSocket.Sharing.Uses.{
  uses_idle, in_use-append, in_use-set, in_use-remove_at, get_elem?-set_cases,
  get_elem?-remove_at_cases, get_elem?-append_cases,
}
use postboy.WebSocket.Sharing.Effects.{Effect, keeps, refuses, goes, fails, starts, joins, releases}
use postboy.WebSocket.Sharing.Calls.{act-Effect}
use postboy.WebSocket.Sharing.Invariant.{Counted, Shared, Shared-Entered, same_contexts}
use postboy.WebSocket.Sharing.Moves.{
  keeps-Shared, goes-Shared, fails-Shared, starts-Shared, joins-Shared, releases-Shared,
}

Effect-Shared :
    (w : Clients) (i : ℕ) (c : Client) (o : Outcome)
    → Shared w
    → get_elem? w.clients i ≡ some c
    → Effect c w.contexts o
    → Shared (settle i o w)
Effect-Shared w i c _ h e (keeps d kept) = keeps-Shared w i c h e d kept
Effect-Shared w i c _ h e refuses =
    keeps-Shared w i c h e c (record { loop_kept = refl; context_kept = refl; active_kept = refl })
Effect-Shared w i c _ h e (goes idle) = goes-Shared w i c h e idle
Effect-Shared w i c _ h e (fails idle free) = fails-Shared w i c h e idle free
Effect-Shared w i c _ h e (starts x idle free) = starts-Shared w i c h e x idle free
Effect-Shared w i c _ h e (joins k idle is) = joins-Shared w i c h e k idle is
Effect-Shared w i c _ h e (releases none k a is positive idle) =
    releases-Shared w i c h e (remove_at i w.clients) k a is positive
      (λ l. in_use-remove_at l w.clients i c e)
      (λ j b there active. get_elem?-remove_at_cases w.clients i j b there)
Effect-Shared w i c _ h e (releases (some d) k a is positive idle) =
    releases-Shared w i c h e (set w.clients i d) k a is positive
      (λ l. omega (arith, in_use-set l w.clients i c d e, uses_idle l d (idle d refl)))
      (λ j b there active. elim (get_elem?-set_cases w.clients i j d b there) [
        | inl b_d ↦ absurd (cc (sym (ap is_active b_d) ∙ active, idle d refl))
        | inr was ↦ (j, was)
      ])

Reach-Shared : {lws_pre : ℕ} {w : Clients} → Reach lws_pre w → Shared w
Reach-Shared here = record { counted = λ l. refl; held = λ i c x e. absurd (cc e) }
Reach-Shared (creates {w} l r) =
    let h = Reach-Shared r in
    same_contexts w (w.clients ++ (client l ∷ []))
      (λ m. omega (arith, in_use-append m w.clients (client l), uses_idle m (client l) refl))
      (λ j d x e a is. elim (get_elem?-append_cases w.clients j (client l) d e) [
        | inl d_new ↦ absurd (cc (ap (λ d. d.context) d_new, is))
        | inr was ↦ h.held j d x was a is
      ])
      h
Reach-Shared {lws_pre} (acts {w} i c a o r e allowed is) =
    let h = Reach-Shared r in
    Effect-Shared w i c o h e
      (act-Effect lws_pre a c w.contexts o allowed (Shared-Entered w i c h e) is)

never_aborts : {c : Client} {contexts : Contexts} {o : Outcome} → Effect c contexts o → o ≢ aborted
never_aborts (keeps _ _) e = cc e
never_aborts refuses e = cc e
never_aborts (goes _) e = cc e
never_aborts (fails _ _) e = cc e
never_aborts (starts _ _ _) e = cc e
never_aborts (joins _ _ _) e = cc e
never_aborts (releases _ _ _ _ _ _) e = cc e

-- The count of a context that is there.
exact :
    {k : Context} {n : ℕ} (x : ℕ)
    → Counted (some k) n
    → k.context ≡ some x
    → (k.clients_count ≡ n) × (0 < n)
exact {n = n} x (inl (count, last)) is = elim (ℕ_discrete n 0) [
  | yes z ↦ absurd (cc (last z, is))
  | no ne ↦ (count, omega (arith, ne))
]
exact x (inr (count, no_context)) is = absurd (cc (no_context, is))

-- However the clients of a program are made, called, destroyed and told of events, when timers and events only
-- come to clients that are connected or about to be: a context that is there counts exactly the clients of its
-- loop that use it, and there is one; a client that is connected or about to be holds no context but the one
-- of its loop that is there; and no call fails an ASSERT.
pub Reach-shared :
    {lws_pre : ℕ} {w : Clients}
    → Reach lws_pre w
    → ((l x : ℕ) (k : Context)
        → w.contexts l ≡ some k
        → k.context ≡ some x
        → (k.clients_count ≡ in_use l w.clients) × (0 < in_use l w.clients))
      × ((i x : ℕ) (c : Client)
          → get_elem? w.clients i ≡ some c
          → is_active c ≡ true
          → c.context ≡ some x
          → (k : Context) × (w.contexts c.ev_loop ≡ some k) × (k.context ≡ some x))
      × ((i : ℕ) (c : Client) (a : Act)
          → get_elem? w.clients i ≡ some c
          → is_allowed a c ≡ true
          → act lws_pre a c w.contexts ≢ some aborted)
Reach-shared {lws_pre} {w} r =
    let h = Reach-Shared r in
    (
      λ l x k e is. exact x (subst (λ o. Counted o (in_use l w.clients)) e (h.counted l)) is,
      λ i x c e a is. h.held i c x e a is,
      λ i c a e allowed is.
          never_aborts
            (act-Effect lws_pre a c w.contexts aborted allowed (Shared-Entered w i c h e) is) refl,
    )
