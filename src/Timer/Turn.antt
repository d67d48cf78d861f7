-- ===== src/Timer/Turn.antt =====
-- What one tick of the wheel of ticktimer.cpp takes out, and where the other timers stand.
use high_perf_server.Base.{
  ℕ, ◌+◌, ◌-◌, ◌/◌, ◌%◌, ◌^◌, ◌≤◌, ◌<◌, ◌≡◌, ◌≢◌, ◌⊎◌, inl, inr, arith, ==_ne, ℕ_discrete,
}
use high_perf_server.Timer.{TimerEle, TickTimer, clear, spread, cascade}
use high_perf_server.Timer.Wheel.{In, DueIn, Sound, In-clear, In-spread}

-- The wheel at its new tick, when the slot of the second level has been spread.
pub record Loose (t : TickTimer) : Type 0 where
  pub range : t.now < 2 ^ 32
  pub near :
      (i : ℕ) (e : TimerEle)
      → In e (t.tv1 i)
      → (r : ℕ) × (e.expires ≡ (t.now + r) % 2 ^ 32) × (r < 256) × (i ≡ (t.now + r) % 256)
  pub far :
      (i : ℕ) (e : TimerEle)
      → In e (t.tv2 i)
      → (r : ℕ) × DueIn t.now r e
        × (1 ≤ (t.now % 256 + r) / 256)
        × ((t.now % 256 + r) / 256 ≤ 256)
        × (i ≡ (t.now / 256 + (t.now % 256 + r) / 256) % 256)

abbrev pub next : ℕ → TickTimer → TickTimer
next cnt t = record t { now = (t.now + 1) % 2 ^ 32; time = (t.time + cnt) % 2 ^ 32 }

abbrev pub spread_at : TickTimer → ℕ → TickTimer
spread_at t slot = record t { tv1 = spread (t.tv2 slot) t.tv1; tv2 = clear t.tv2 slot }

pub cascade_block : (t : TickTimer) → t.now % 256 ≡ 0 → cascade t ≡ spread_at t (t.now / 256 % 256)
unfolding cascade
cascade_block t h = rw h

pub cascade_inner : (t : TickTimer) → t.now % 256 ≢ 0 → cascade t ≡ t
unfolding cascade
cascade_inner t h = rw (==_ne (t.now % 256) 0 h)

module _ (t : TickTimer) (cnt : ℕ) (v : Sound t) where
  abbrev n' : ℕ
  n' = (t.now + 1) % 2 ^ 32

  near_next :
      (i : ℕ) (e : TimerEle)
      → In e (t.tv1 i)
      → (r : ℕ) × (e.expires ≡ (n' + r) % 2 ^ 32) × (r < 256) × (i ≡ (n' + r) % 256)
  near_next i e h =
      let (r, (p, q), a, b) = v.near i e h in
      (r - 1, omega (arith, v.range), omega arith, omega arith)

  inner-Loose : n' % 256 ≢ 0 → Loose (next cnt t)
  inner-Loose h = record {
    range = omega arith;
    near = near_next;
    far = λ i e q.
        let (r, (p, q), a, b, c) = v.far i e q in
        (
          r - 1,
          (omega arith, omega (arith, v.range)),
          omega (arith, v.range),
          omega (arith, v.range),
          omega (arith, v.range),
        );
  }

  -- Which of the second level are to be spread.
  block_far :
      n' % 256 ≡ 0
      → (i : ℕ) (e : TimerEle) → In e (t.tv2 i)
      → (r : ℕ) × (e.expires ≡ (n' + r) % 2 ^ 32)
        × (r / 256 < 256)
        × (i ≡ (n' / 256 + r / 256) % 256)
  block_far h i e q =
      let (r, (p, k), a, b, c) = v.far i e q in
      (r - 1, omega (arith, v.range), omega (arith, h, v.range), omega (arith, h, v.range))

  block-Loose : n' % 256 ≡ 0 → Loose (spread_at (next cnt t) (n' / 256 % 256))
  block-Loose h = record {
    range = omega arith;
    near = λ i e q. near_case i e (In-spread (t.tv2 (n' / 256 % 256)) t.tv1 i e q);
    far = λ i e q. far_case i e (In-clear t.tv2 (n' / 256 % 256) i e q);
  }
    where
      near_case :
          (i : ℕ) (e : TimerEle)
          → (In e (t.tv2 (n' / 256 % 256)) × (i ≡ e.expires % 256)) ⊎ In e (t.tv1 i)
          → (r : ℕ) × (e.expires ≡ (n' + r) % 2 ^ 32) × (r < 256) × (i ≡ (n' + r) % 256)
      near_case i e (inl (q, k)) =
          let (r, p, a, b) = block_far h (n' / 256 % 256) e q in
          (r, p, omega (arith, a, b), omega (arith, k, p))
      near_case i e (inr q) = near_next i e q

      far_case :
          (i : ℕ) (e : TimerEle)
          → (i ≢ n' / 256 % 256) × In e (t.tv2 i)
          → (r : ℕ) × DueIn n' r e
            × (1 ≤ (n' % 256 + r) / 256)
            × ((n' % 256 + r) / 256 ≤ 256)
            × (i ≡ (n' / 256 + (n' % 256 + r) / 256) % 256)
      far_case i e (d, q) =
          let (r, p, a, b) = block_far h i e q in
          let ahead : 1 ≤ r / 256 = omega (arith, d, a, b) in
          (
            r,
            (omega (arith, ahead), p),
            omega (arith, ahead, h),
            omega (arith, a, h),
            omega (arith, b, h),
          )

  pub cascade-Loose : Loose (cascade (next cnt t))
  cascade-Loose = elim (ℕ_discrete (n' % 256) 0) [
    | yes h ↦ rw (cascade_block (next cnt t) h) (block-Loose h)
    | no h ↦ rw (cascade_inner (next cnt t) h) (inner-Loose h)
  ]

-- The slot of the tick is taken out.
abbrev pub emptied : TickTimer → TickTimer
emptied t = record t { tv1 = clear t.tv1 (t.now % 256) }

pub emptied-Sound : (t : TickTimer) → Loose t → Sound (emptied t)
emptied-Sound t v = record {
  range = v.range;
  near = λ i e q.
      let (d, p) = In-clear t.tv1 (t.now % 256) i e q in
      let (r, k, a, b) = v.near i e p in (r, (omega (arith, d, b, a), k), a, b);
  far = v.far;
}

pub slot-due :
    (t : TickTimer) → Loose t → (e : TimerEle) → In e (t.tv1 (t.now % 256)) → e.expires ≡ t.now
slot-due t v e q = let (r, k, a, b) = v.near (t.now % 256) e q in omega (arith, k, a, b, v.range)
