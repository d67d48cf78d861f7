-- ===== src/Task/Shared/Arrived.antt =====
-- An event that is checked in (BitDoor::checkin of tasker.cpp): its cases, and the word that it leaves.
use high_perf_server.Base.{
  ℕ, suc, ◌+◌, ◌≤◌, ◌<◌, ◌≡◌, sym, ◌∙◌, ◌≢◌, ◌⊎◌, inl, inr, true, false, arith, dec_lt, ℕ_discrete,
}
use high_perf_server.Base.Bits.{bit, bit-le}
use high_perf_server.Task.Door.Words.{low, high, Awaits}
use high_perf_server.Task.Door.Laws.{Covered, Marked, bit-checkin}
use high_perf_server.Task.Door.{checkin}
use high_perf_server.Task.Shared.{Shared, Visit, away, inside, check_in}
use high_perf_server.Task.Shared.Shapes.{Plain}

-- The cases of an event that is checked in.
pub data Kind (ev : ℕ) : Type 0 where
  event : 1 ≤ ev → ev < 15 → Kind ev
  end : ev ≡ 15 → Kind ev
  invalid : (ev ≡ 0) ⊎ (15 < ev) → Kind ev

pub kind : (ev : ℕ) → Kind ev
kind ev = elim (dec_lt ev 15) [
  | yes h ↦ elim (dec_lt 0 ev) [ yes p ↦ event p h | no p ↦ invalid (inl (omega arith)) ]
  | no h ↦ elim (ℕ_discrete ev 15) [ yes e ↦ end e | no n ↦ invalid (inr (omega arith)) ]
]

pub not_awaited : (s i : ℕ) → Covered s → Awaits i s → ⊥
not_awaited s i c (a, b) = omega (arith, c i a, b)

-- The state after `check_in`, by what `checkin` gives.
pub check_in_no :
    (s : Shared) (ev : ℕ)
    → (checkin s.word ev).1 ≡ false
    → check_in s ev ≡ record s { word = (checkin s.word ev).0 }
unfolding check_in
check_in_no s ev h = rw h

pub check_in_yes :
    (s : Shared) (ev : ℕ)
    → (checkin s.word ev).1 ≡ true
    → check_in s ev ≡ record s { word = (checkin s.word ev).0; adding = suc s.adding }
unfolding check_in
check_in_yes s ev h = rw h

module _ (w ev : ℕ) (a : 1 ≤ ev) (b : ev < 15) where
  abbrev pub after : ℕ
  after = (checkin w ev).0

  pub after_high : (i : ℕ) → high i after ≡ high i w
  after_high i = bit-checkin (i + 16) w ev a b ∙ ground arith

  pub after_low : (i : ℕ) → i ≢ ev → low i after ≡ low i w
  after_low i h = bit-checkin i w ev a b ∙ ground arith

  pub after_self : low ev after ≡ 1
  after_self = bit-checkin ev w ev a b ∙ ground (arith, bit-le ev w)

  after_more : (i : ℕ) → bit i w ≤ bit i after
  after_more i = omega (arith, bit-checkin i w ev a b)

  pub after_Covered : ((i : ℕ) → Awaits i w → i ≡ ev) → Covered after
  after_Covered only i h = elim (ℕ_discrete i ev) [
    | yes e ↦ rw e after_self
    | no n ↦ ground (arith, after_low i n, after_high i, h, bit-le i w, only i)
  ]

  pub after_Awaits : (i : ℕ) → Awaits i after → Awaits i w
  after_Awaits i (p, q) = (sym (after_high i) ∙ p, omega (arith, q, after_more i))

  pub after_Marked : Marked after
  after_Marked = (ev, after_self)

  pub after_Plain : (v : Visit) → Plain v w → Plain v after
  after_Plain away p = tt
  after_Plain (inside o) p = λ i. after_high i ∙ p i
