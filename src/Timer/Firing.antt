-- ===== src/Timer/Firing.antt =====
-- The tick at which a timer of the wheel of ticktimer.cpp fires.
use high_perf_server.Base.{
  ℕ, ◌+◌, ◌/◌, ◌%◌, ◌^◌, ◌≡◌, ◌≢◌, refl, sym, ap, ◌∙◌, ◌⊎◌, inl, inr, ◌↔◌, Bool, true, false, List,
  [], ◌∷◌, arith, ◌==◌, ==_self, ==_ne, if◌then◌else◌, ℕ_discrete, dec_lt,
}
use high_perf_server.Timer.{TimerEle, TickTimer, hlist_add, clear, place, spread, cascade, turn}
use high_perf_server.Timer.Wheel.{In, Sound, timer, place_near, place_far}
use high_perf_server.Timer.Turn.{
  next, spread_at, cascade_block, cascade_inner, cascade-Loose, emptied, emptied-Sound, slot-due,
}

-- The timer is in the wheel.
abbrev pub Stands : TimerEle → TickTimer → Type 0
Stands e t = ((i : ℕ) × In e (t.tv1 i)) ⊎ ((i : ℕ) × In e (t.tv2 i))

In-hlist_add_more :
    (tv : ℕ → List TimerEle) (k i : ℕ) (x e : TimerEle) → In e (tv i) → In e (hlist_add tv k x i)
In-hlist_add_more tv k i x e h = go (i == k)
  where
    go : (b : Bool) → In e (if b then x ∷ tv i else tv i)
    go true = inr h
    go false = h

In-hlist_add_self : (tv : ℕ → List TimerEle) (k : ℕ) (e : TimerEle) → In e (hlist_add tv k e k)
In-hlist_add_self tv k e = rw (==_self k) (inl refl)

In-spread_more :
    (es : List TimerEle) (tv : ℕ → List TimerEle) (i : ℕ) (e : TimerEle)
    → In e (tv i)
    → In e (spread es tv i)
unfolding spread
In-spread_more [] tv i e h = h
In-spread_more (x ∷ es) tv i e h =
    In-spread_more es (hlist_add tv (x.expires % 256) x) i e
      (In-hlist_add_more tv (x.expires % 256) i x e h)

In-spread_all :
    (es : List TimerEle) (tv : ℕ → List TimerEle) (e : TimerEle)
    → In e es
    → In e (spread es tv (e.expires % 256))
unfolding spread
In-spread_all [] tv e h = elim h [ ]
In-spread_all (x ∷ es) tv e (inl q) =
    In-spread_more es (hlist_add tv (x.expires % 256) x) (e.expires % 256) e
      (rw q (In-hlist_add_self tv (x.expires % 256) x))
In-spread_all (x ∷ es) tv e (inr q) = In-spread_all es (hlist_add tv (x.expires % 256) x) e q

In-clear_other :
    (tv : ℕ → List TimerEle) (k i : ℕ) (e : TimerEle) → i ≢ k → In e (tv i) → In e (clear tv k i)
In-clear_other tv k i e d h = rw (==_ne i k d) h

spread-Stands : (t : TickTimer) (k : ℕ) (e : TimerEle) → Stands e t → Stands e (spread_at t k)
spread-Stands t k e (inl (i, h)) = inl (i, In-spread_more (t.tv2 k) t.tv1 i e h)
spread-Stands t k e (inr (i, h)) = elim (ℕ_discrete i k) [
  | yes s ↦ inl (e.expires % 256, In-spread_all (t.tv2 k) t.tv1 e (rw (← s) h))
  | no d ↦ inr (i, In-clear_other t.tv2 k i e d h)
]

cascade-Stands : (t : TickTimer) (e : TimerEle) → Stands e t → Stands e (cascade t)
cascade-Stands t e h = elim (ℕ_discrete (t.now % 256) 0) [
  | yes z ↦ rw (cascade_block t z) (spread-Stands t (t.now / 256 % 256) e h)
  | no n ↦ rw (cascade_inner t n) h
]

emptied-Stands :
    (t : TickTimer) (e : TimerEle) → Stands e t → In e (t.tv1 (t.now % 256)) ⊎ Stands e (emptied t)
emptied-Stands t e (inr h) = inr (inr h)
emptied-Stands t e (inl (i, h)) = elim (ℕ_discrete i (t.now % 256)) [
  | yes s ↦ inl (rw (← s) h)
  | no d ↦ inr (inl (i, In-clear_other t.tv1 (t.now % 256) i e d h))
]

module _ (cnt : ℕ) (t : TickTimer) (v : Sound t) where
  pub turn-Sound : Sound (turn cnt t).1
  unfolding turn
  turn-Sound = emptied-Sound (cascade (next cnt t)) (cascade-Loose t cnt v)

  turn_due : (e : TimerEle) → In e (turn cnt t).0 → e.expires ≡ (turn cnt t).1.now
  unfolding turn
  turn_due e h = slot-due (cascade (next cnt t)) (cascade-Loose t cnt v) e h

  turn-Stands : (e : TimerEle) → Stands e t → In e (turn cnt t).0 ⊎ Stands e (turn cnt t).1
  unfolding turn
  turn-Stands e h = emptied-Stands (cascade (next cnt t)) e (cascade-Stands (next cnt t) e h)

-- No timer of a sound wheel is due at its present tick.
not_now : (t : TickTimer) (e : TimerEle) → Sound t → Stands e t → e.expires ≢ t.now
not_now t e v (inl (i, h)) x =
    let (r, (p, k), a, b) = v.near i e h in omega (arith, k, x, p, a, v.range)
not_now t e v (inr (i, h)) x =
    let (r, (p, k), a, b, c) = v.far i e h in omega (arith, k, x, p, b, v.range)

turn_now : (cnt : ℕ) (t : TickTimer) → (turn cnt t).1.now ≡ (t.now + 1) % 2 ^ 32
unfolding turn
turn_now cnt t = elim (ℕ_discrete ((t.now + 1) % 2 ^ 32 % 256) 0) [
  | yes z ↦ ap (λ (u : TickTimer). u.now) (cascade_block (next cnt t) z)
  | no n ↦ ap (λ (u : TickTimer). u.now) (cascade_inner (next cnt t) n)
]

-- In a sound wheel a tick takes out exactly those timers of the wheel whose expiry is the new tick,
-- and leaves a sound wheel in which each other one still stands.
pub turn_on_time :
    (cnt : ℕ) (t : TickTimer) (e : TimerEle)
    → Sound t
    → Stands e t
    → Sound (turn cnt t).1
      × (In e (turn cnt t).0 ↔ (e.expires ≡ (t.now + 1) % 2 ^ 32))
      × (In e (turn cnt t).0 ⊎ Stands e (turn cnt t).1)
turn_on_time cnt t e v h = (turn-Sound cnt t v, (fwd, bwd), turn-Stands cnt t v e h)
  where
    fwd : In e (turn cnt t).0 → e.expires ≡ (t.now + 1) % 2 ^ 32
    fwd q = turn_due cnt t v e q ∙ turn_now cnt t

    pick :
        e.expires ≡ (t.now + 1) % 2 ^ 32
        → In e (turn cnt t).0 ⊎ Stands e (turn cnt t).1
        → In e (turn cnt t).0
    pick x (inl q) = q
    pick x (inr q) =
        absurd (not_now (turn cnt t).1 e (turn-Sound cnt t v) q (x ∙ sym (turn_now cnt t)))

    bwd : e.expires ≡ (t.now + 1) % 2 ^ 32 → In e (turn cnt t).0
    bwd x = pick x (turn-Stands cnt t v e h)

-- Ticks one after the other, in which the thread does nothing to the wheel.
abbrev pub turns : List ℕ → TickTimer → TickTimer
turns [] t = t
turns (cnt ∷ cnts) t = turns cnts (turn cnt t).1

pub place-Stands : (t : TickTimer) (id d : ℕ) → Stands (timer t id d) (place t id d)
place-Stands t id d = elim (dec_lt d 256) [
  | yes h ↦
      rw (place_near t id d h)
        (inl (_, In-hlist_add_self t.tv1 ((t.now + d) % 2 ^ 32 % 256) (timer t id d)))
  | no h ↦
      rw (place_far t id d (omega (arith, h)))
        (inr (_, In-hlist_add_self t.tv2 ((t.now + d) % 2 ^ 32 / 256 % 256) (timer t id d)))
]
