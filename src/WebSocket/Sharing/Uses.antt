-- ===== src/WebSocket/Sharing/Uses.antt =====
-- How a change of the list of clients changes the number of those that use a loop's context.
use postboy.Prelude.{
  ℕ, zero, suc, ◌+◌, ◌≤◌, ◌<◌, ◌≡◌, ◌≢◌, refl, ap, sym, ◌⊎◌, inl, inr, some, List, [], ◌∷◌, ◌++◌,
  arith, get_elem?, set, ◌==◌, true, false, Bool-cases,
}
use postboy.WebSocket.{Client}
use postboy.WebSocket.Sharing.{is_active, remove_at, uses, in_use}

pub uses_idle : (l : ℕ) (c : Client) → is_active c ≡ false → uses l c ≡ 0
uses_idle l c e = elim (Bool-cases (c.ev_loop == l)) [ inl h ↦ rw (h, e) refl | inr h ↦ rw h refl ]

pub uses_self : (c : Client) → is_active c ≡ true → uses c.ev_loop c ≡ 1
uses_self c e = let h : (c.ev_loop == c.ev_loop) ≡ true = ground arith in rw (h, e) refl

pub uses_elsewhere : (l : ℕ) (c : Client) → c.ev_loop ≢ l → uses l c ≡ 0
uses_elsewhere l c ne = let h : (c.ev_loop == l) ≡ false = ground (arith, ne) in rw h refl

pub in_use-append :
    (l : ℕ) (cs : List Client) (c : Client) → in_use l (cs ++ (c ∷ [])) ≡ in_use l cs + uses l c
in_use-append l [] c = omega arith
in_use-append l (d ∷ cs) c = omega (arith, in_use-append l cs c)

pub in_use-set :
    (l : ℕ) (cs : List Client) (i : ℕ) (c d : Client)
    → get_elem? cs i ≡ some c
    → in_use l (set cs i d) + uses l c ≡ in_use l cs + uses l d
in_use-set l [] i c d e = absurd (cc e)
in_use-set l (b ∷ cs) zero c d e = let f : b ≡ c = cc e in omega (arith, ap (uses l) f)
in_use-set l (b ∷ cs) (suc i) c d e = omega (arith, in_use-set l cs i c d e)

pub in_use-remove_at :
    (l : ℕ) (cs : List Client) (i : ℕ) (c : Client)
    → get_elem? cs i ≡ some c
    → in_use l (remove_at i cs) + uses l c ≡ in_use l cs
in_use-remove_at l [] i c e = absurd (cc e)
in_use-remove_at l (b ∷ cs) zero c e = let f : b ≡ c = cc e in omega (arith, ap (uses l) f)
in_use-remove_at l (b ∷ cs) (suc i) c e = omega (arith, in_use-remove_at l cs i c e)

in_use_member :
    (l : ℕ) (cs : List Client) (i : ℕ) (c : Client)
    → get_elem? cs i ≡ some c
    → uses l c ≤ in_use l cs
in_use_member l [] i c e = absurd (cc e)
in_use_member l (b ∷ cs) zero c e = let f : b ≡ c = cc e in omega (arith, ap (uses l) f)
in_use_member l (b ∷ cs) (suc i) c e = omega (arith, in_use_member l cs i c e)

pub in_use_active :
    (cs : List Client) (i : ℕ) (c : Client)
    → get_elem? cs i ≡ some c
    → is_active c ≡ true
    → 0 < in_use c.ev_loop cs
in_use_active cs i c e a = omega (arith, in_use_member c.ev_loop cs i c e, uses_self c a)

-- Whoever is in a changed list is the new one or was there.
pub get_elem?-set_cases :
    (cs : List Client) (i j : ℕ) (c d : Client)
    → get_elem? (set cs i c) j ≡ some d
    → (d ≡ c) ⊎ (get_elem? cs j ≡ some d)
get_elem?-set_cases [] i j c d e = absurd (cc e)
get_elem?-set_cases (b ∷ cs) zero zero c d e = inl (let f : c ≡ d = cc e in sym f)
get_elem?-set_cases (b ∷ cs) zero (suc j) c d e = inr e
get_elem?-set_cases (b ∷ cs) (suc i) zero c d e = inr e
get_elem?-set_cases (b ∷ cs) (suc i) (suc j) c d e = get_elem?-set_cases cs i j c d e

pub get_elem?-remove_at_cases :
    (cs : List Client) (i j : ℕ) (d : Client)
    → get_elem? (remove_at i cs) j ≡ some d
    → (k : ℕ) × (get_elem? cs k ≡ some d)
get_elem?-remove_at_cases [] i j d e = absurd (cc e)
get_elem?-remove_at_cases (b ∷ cs) zero j d e = (suc j, e)
get_elem?-remove_at_cases (b ∷ cs) (suc i) zero d e = (zero, e)
get_elem?-remove_at_cases (b ∷ cs) (suc i) (suc j) d e =
    let (k, f) = get_elem?-remove_at_cases cs i j d e in (suc k, f)

pub get_elem?-append_cases :
    (cs : List Client) (j : ℕ) (c d : Client)
    → get_elem? (cs ++ (c ∷ [])) j ≡ some d
    → (d ≡ c) ⊎ (get_elem? cs j ≡ some d)
get_elem?-append_cases [] zero c d e = inl (let f : c ≡ d = cc e in sym f)
get_elem?-append_cases [] (suc j) c d e = absurd (cc e)
get_elem?-append_cases (b ∷ cs) zero c d e = inr e
get_elem?-append_cases (b ∷ cs) (suc j) c d e = get_elem?-append_cases cs j c d e
