-- ===== src/TimeWheel/Safety.antt =====
-- What one scan of a slot, the loop in Tick of example-time-wheel/time_wheel.cc, fires and keeps.
use c_plus_plus_examples.Base.{
  elem, ℕ, ◌≤◌, ◌≡◌, refl, sym, ◌∙◌, true, false, List, [], ◌∷◌, arith, leb, All, Bool-cases, inl,
  inr, leb→le,
}
use c_plus_plus_examples.TimeWheel.{Timer, scan, deactivate}

-- `t` was due and active, and is not active any more.
pub record Fires (now : ℕ) (before after : ℕ → Timer) (t : ℕ) : Type 0 where
  pub was_active : (before t).active ≡ true
  pub was_due : (before t).expires ≤ now
  pub is_inactive : (after t).active ≡ false

scan-inactive :
    (now : ℕ) (ts : ℕ → Timer) (l : List ℕ) (u : ℕ)
    → (ts u).active ≡ false
    → ((scan now ts l).timers u).active ≡ false
unfolding scan
scan-inactive now ts [] u h = h
scan-inactive now ts (t ∷ l) u h =
    ground (arith, scan-inactive now ts l u h, scan-inactive now (deactivate ts t) l u)

deactivate_self : (ts : ℕ → Timer) (t : ℕ) → (deactivate ts t t).active ≡ false
deactivate_self ts t = ground arith

active-deactivate :
    (ts : ℕ → Timer) (t u : ℕ) → (deactivate ts t u).active ≡ true → (ts u).active ≡ true
active-deactivate ts t u h = ground arith

expires-deactivate : (ts : ℕ → Timer) (t u : ℕ) → (deactivate ts t u).expires ≡ (ts u).expires
expires-deactivate ts t u = ground arith

pub scan-Fires :
    (now : ℕ) (ts before : ℕ → Timer) (l : List ℕ)
    → ((u : ℕ) → (ts u).active ≡ true → (before u).active ≡ true)
    → ((u : ℕ) → (ts u).expires ≡ (before u).expires)
    → All (Fires now before (scan now ts l).timers) (scan now ts l).expired
unfolding scan
scan-Fires now ts before [] live same = tt
scan-Fires now ts before (t ∷ l) live same = elim (Bool-cases (ts t).active) [
  | inr idle ↦ rw idle (scan-Fires now ts before l live same)
  | inl act ↦ elim (Bool-cases (leb (ts t).expires now)) [
    | inr early ↦ rw (act, early) (scan-Fires now ts before l live same)
    | inl due ↦
        rw (act, due)
          (
            record {
              was_active = live t act;
              was_due = rw (sym (same t)) (leb→le (ts t).expires now due);
              is_inactive = scan-inactive now (deactivate ts t) l t (deactivate_self ts t);
            },
            scan-Fires now (deactivate ts t) before l (λ u h. live u (active-deactivate ts t u h))
                (λ u. expires-deactivate ts t u ∙ same u),
          )
  ]
]

pub scan_due :
    (now : ℕ) (ts : ℕ → Timer) (l : List ℕ) (u : ℕ)
    → (ts u).active ≡ true
    → leb (ts u).expires now ≡ true
    → elem u l ≡ true
    → elem u (scan now ts l).expired ≡ true
unfolding scan
scan_due now ts [] u act due h = ground arith
scan_due now ts (t ∷ l) u act due h =
    ground (arith, scan_due now ts l u act due, scan_due now (deactivate ts t) l u)

pub scan_early :
    (now : ℕ) (ts : ℕ → Timer) (l : List ℕ) (u : ℕ)
    → (ts u).active ≡ true
    → leb (ts u).expires now ≡ false
    → elem u l ≡ true
    → elem u (scan now ts l).kept ≡ true
unfolding scan
scan_early now ts [] u act due h = ground arith
scan_early now ts (t ∷ l) u act due h =
    ground (arith, scan_early now ts l u act due, scan_early now (deactivate ts t) l u)

pub scan_unfired :
    (now : ℕ) (ts : ℕ → Timer) (l : List ℕ) (u : ℕ)
    → elem u (scan now ts l).expired ≡ false
    → (scan now ts l).timers u ≡ ts u
unfolding scan
scan_unfired now ts [] u h = refl
scan_unfired now ts (t ∷ l) u h =
    ground (arith, scan_unfired now ts l u, scan_unfired now (deactivate ts t) l u)
