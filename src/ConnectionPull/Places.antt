-- ===== src/ConnectionPull/Places.antt =====
-- Where the pool's connections stand.
use postboy.Prelude.{
  ℕ, ◌+◌, ◌≤◌, ◌<◌, ◌≡◌, ◌≢◌, refl, ap, sym, ◌∙◌, ◌⊎◌, inl, inr, arith, ℕ_discrete, update_at,
  update_at-cases,
}
use postboy.Concurrency.Mpsc.Nodes.{count}
use postboy.ConnectionPull.{Agent, outside, holding, ConnectionPull, go, push, hand_over}

abbrev pub Idle : Agent → Type 0
Idle a = (c : ℕ) → a ≢ holding c

-- The connections that were created stand in one place each: on a stack or in one hand.
pub record Placed (s : ConnectionPull) : Type 0 where
  pub known : (c : ℕ) → 0 < count c s.first + count c s.second → c < s.next_connection
  pub once : (c : ℕ) → count c s.first + count c s.second ≤ 1
  pub held :
      (i c : ℕ)
      → s.agents i ≡ holding c
      → (c < s.next_connection) × (count c s.first + count c s.second ≡ 0)
  pub alone : (i j c : ℕ) → s.agents i ≡ holding c → s.agents j ≡ holding c → i ≡ j
  pub kept :
      (c : ℕ)
      → c < s.next_connection
      → (0 < count c s.first + count c s.second) ⊎ ((i : ℕ) × (s.agents i ≡ holding c))

update_at_self : (f : ℕ → Agent) (i : ℕ) (a : Agent) → update_at f i a i ≡ a
update_at_self f i a = elim (update_at-cases f i a i) [
  | inl (_, now) ↦ now
  | inr (ne, _) ↦ absurd (ne refl)
]

others_keep :
    (f : ℕ → Agent) (i : ℕ) (a : Agent)
    → Idle (f i)
    → (j c : ℕ) → f j ≡ holding c
    → update_at f i a j ≡ holding c
others_keep f i a before j c e = elim (update_at-cases f i a j) [
  | inl (same, now) ↦ absurd (before c (ap f same ∙ e))
  | inr (_, now) ↦ now ∙ e
]

others_were :
    (f : ℕ → Agent) (i : ℕ) (a : Agent)
    → Idle a
    → (j c : ℕ) → update_at f i a j ≡ holding c
    → f j ≡ holding c
others_were f i a after j c e = elim (update_at-cases f i a j) [
  | inl (_, now) ↦ absurd (after c (sym now ∙ e))
  | inr (_, now) ↦ sym now ∙ e
]

-- An agent without a connection moves to a place without one.
module _ (s : ConnectionPull) (i : ℕ) (a : Agent) (before : Idle (s.agents i))
    (after : Idle a) where
  pub go-Placed : Placed s → Placed (go i a s)
  go-Placed p = record {
    known = p.known;
    once = p.once;
    held = λ j c e. p.held j c (others_were s.agents i a after j c e);
    alone = λ j k c e f.
        p.alone j k c (others_were s.agents i a after j c e) (others_were s.agents i a after k c f);
    kept = λ c lt. elim (p.kept c lt) [
      | inl there ↦ inl there
      | inr (j, e) ↦ inr (j, others_keep s.agents i a before j c e)
    ];
  }

-- Where the others stand, and what an agent takes in hand.
mine_or :
    (f : ℕ → Agent) (i c j d : ℕ)
    → update_at f i (holding c) j ≡ holding d
    → ((i ≡ j) × (c ≡ d)) ⊎ ((i ≢ j) × (f j ≡ holding d))
mine_or f i c j d e = elim (update_at-cases f i (holding c) j) [
  | inl (same, now) ↦ inl (same, cc (now, e))
  | inr (ne, now) ↦ inr (ne, sym now ∙ e)
]

-- A connection leaves a stack, or is new, for a hand.
pub taken-Placed :
    (s t : ConnectionPull) (i c : ℕ)
    → t.agents ≡ update_at s.agents i (holding c)
    → Idle (s.agents i)
    → ((j : ℕ) → s.agents j ≢ holding c)
    → c < t.next_connection
    → s.next_connection ≤ t.next_connection
    → count c t.first + count c t.second ≡ 0
    → ((d : ℕ) → d ≢ c → count d t.first + count d t.second ≡ count d s.first + count d s.second)
    → ((d : ℕ) → d ≢ c → d < t.next_connection → d < s.next_connection)
    → Placed s
    → Placed t
taken-Placed s t i c agents before nobody new grows gone same older p = record {
  known = λ d m. elim (ℕ_discrete d c) [
    | yes e ↦ rw e new
    | no ne ↦ let k = p.known d (omega (arith, m, same d ne)) in omega (arith, k, grows)
  ];
  once = λ d. elim (ℕ_discrete d c) [
    | yes e ↦ rw e (omega (arith, gone))
    | no ne ↦ omega (arith, p.once d, same d ne)
  ];
  held = λ j d e. elim (mine_or s.agents i c j d (ap (λ f. f j) (sym agents) ∙ e)) [
    | inl (_, eq) ↦ rw (sym eq) (new, gone)
    | inr (_, other) ↦
        let (lt, out) = p.held j d other in
        let ne : d ≢ c = λ h. nobody j (rw h at other) in
        (omega (arith, lt, grows), same d ne ∙ out)
  ];
  alone = λ j k d e f. elim (mine_or s.agents i c j d (ap (λ f. f j) (sym agents) ∙ e)) [
    | inl (at_j, eq) ↦ elim (mine_or s.agents i c k d (ap (λ f. f k) (sym agents) ∙ f)) [
      | inl (at_k, _) ↦ sym at_j ∙ at_k
      | inr (_, other) ↦ absurd (nobody k (rw (sym eq) at other))
    ]
    | inr (_, mine) ↦ elim (mine_or s.agents i c k d (ap (λ f. f k) (sym agents) ∙ f)) [
      | inl (_, eq) ↦ absurd (nobody j (rw (sym eq) at mine))
      | inr (_, other) ↦ p.alone j k d mine other
    ]
  ];
  kept = λ d lt. elim (ℕ_discrete d c) [
    | yes e ↦
        inr (i, ap (λ f. f i) agents ∙ update_at_self s.agents i (holding c) ∙ ap holding (sym e))
    | no ne ↦ elim (p.kept d (older d ne lt)) [
      | inl there ↦ inl (omega (arith, there, same d ne))
      | inr (j, e) ↦ inr (j, ap (λ f. f j) agents ∙ others_keep s.agents i (holding c) before j d e)
    ]
  ];
}

nobody_else :
    (s : ConnectionPull) (i c : ℕ)
    → s.agents i ≡ holding c
    → Placed s
    → (j : ℕ) → update_at s.agents i outside j ≢ holding c
nobody_else s i c mine p j e = elim (update_at-cases s.agents i outside j) [
  | inl (_, now) ↦ absurd (cc (now, e))
  | inr (ne, now) ↦ ne (p.alone i j c mine (sym now ∙ e))
]

-- A connection leaves a hand for the second stack.
pub push-Placed :
    (s : ConnectionPull) (i c : ℕ) → s.agents i ≡ holding c → Placed s → Placed (push i c s)
push-Placed s i c mine p =
    let (new, out) = p.held i c mine in
    record {
      known = λ d m. elim (ℕ_discrete d c) [
        | yes e ↦ rw e new
        | no ne ↦ p.known d (ground (arith, m, ne))
      ];
      once = λ d. ground (arith, p.once d, out);
      held = λ j d e.
          let old = others_were s.agents i outside (λ x e. cc e) j d e in
          let (lt, gone) = p.held j d old in
          let ne : c ≢ d = λ h. nobody_else s i c mine p j (e ∙ ap holding (sym h)) in
          (lt, ground (arith, gone, ne));
      alone = λ j k d e f.
          p.alone j k d (others_were s.agents i outside (λ x e. cc e) j d e)
            (others_were s.agents i outside (λ x e. cc e) k d f);
      kept = λ d lt. elim (ℕ_discrete c d) [
        | yes e ↦ inl (ground (arith, e))
        | no ne ↦ elim (p.kept d lt) [
          | inl there ↦ inl (ground (arith, there))
          | inr (j, e) ↦ elim (update_at-cases s.agents i outside j) [
            | inl (same, _) ↦ absurd (ne (cc (mine, same, e)))
            | inr (_, now) ↦ inr (j, now ∙ e)
          ]
        ]
      ];
    }

pub hand_over-Placed :
    (s : ConnectionPull) (i j c : ℕ)
    → s.agents i ≡ holding c
    → s.agents j ≡ outside
    → Placed s
    → Placed (hand_over i j c s)
hand_over-Placed s i j c mine free p =
    let (new, out) = p.held i c mine in
    let idle : Idle ((push i c s).agents j) = λ d e. elim (update_at-cases s.agents i outside j) [
      | inl (_, now) ↦ cc (now, e)
      | inr (_, now) ↦ cc (now, e, free)
    ] in
    taken-Placed (push i c s) (hand_over i j c s) j c refl idle (nobody_else s i c mine p) new
      (omega arith) out (λ d ne. ground (arith, ne)) (λ d ne lt. lt) (push-Placed s i c mine p)

pub unplaced :
    (s : ConnectionPull) (c : ℕ)
    → 0 < count c s.first + count c s.second
    → Placed s
    → (j : ℕ) → s.agents j ≢ holding c
unplaced s c there p j e = let (_, out) = p.held j c e in absurd (omega (arith, there, out))
