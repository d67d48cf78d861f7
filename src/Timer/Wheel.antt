-- ===== src/Timer/Wheel.antt =====
-- Where the timers stand in the wheel of ticktimer.cpp, and when they fire.
use high_perf_server.Base.{
  ℕ, ◌+◌, ◌-◌, ◌/◌, ◌%◌, ◌^◌, ◌≤◌, ◌<◌, ◌≡◌, ◌≢◌, refl, sym, ap, ◌∙◌, ◌⊎◌, inl, inr, Bool, true,
  false, List, [], ◌∷◌, arith, ◌==◌, ==_iff, ==_self, lt→ltb, ltb-false, if◌then◌else◌, dec_lt,
}
use high_perf_server.Timer.{
  TimerEle, TickTimer, hlist_add, clear, without, hashed, del_timer, place, spread,
}

-- `e` stands in the list.
abbrev pub In : TimerEle → List TimerEle → Type 0
In e [] = ⊥
In e (x ∷ xs) = (e ≡ x) ⊎ In e xs

-- The timer is to fire `r` ticks after `now`.
abbrev pub DueIn : ℕ → ℕ → TimerEle → Type 0
DueIn now r e = (0 < r) × (e.expires ≡ (now + r) % 2 ^ 32)

-- First level: within 256 ticks, in the slot of its tick. Second level: in one of the 256 blocks of
-- 256 ticks behind the present one, in the slot of its block.
pub record Sound (t : TickTimer) : Type 0 where
  pub range : t.now < 2 ^ 32
  pub near :
      (i : ℕ) (e : TimerEle)
      → In e (t.tv1 i)
      → (r : ℕ) × DueIn t.now r e × (r < 256) × (i ≡ (t.now + r) % 256)
  pub far :
      (i : ℕ) (e : TimerEle)
      → In e (t.tv2 i)
      → (r : ℕ) × DueIn t.now r e
        × (1 ≤ (t.now % 256 + r) / 256)
        × ((t.now % 256 + r) / 256 ≤ 256)
        × (i ≡ (t.now / 256 + (t.now % 256 + r) / 256) % 256)

pub In-hlist_add :
    (tv : ℕ → List TimerEle) (k i : ℕ) (x e : TimerEle)
    → In e (hlist_add tv k x i)
    → ((i ≡ k) × (e ≡ x)) ⊎ In e (tv i)
In-hlist_add tv k i x e = go (i == k) refl
  where
    go :
        (b : Bool)
        → (i == k) ≡ b
        → In e (if b then x ∷ tv i else tv i)
        → ((i ≡ k) × (e ≡ x)) ⊎ In e (tv i)
    go true s (inl q) = inl ((==_iff i k).0 s, q)
    go true s (inr q) = inr q
    go false s q = inr q

pub In-clear :
    (tv : ℕ → List TimerEle) (k i : ℕ) (e : TimerEle) → In e (clear tv k i) → (i ≢ k) × In e (tv i)
In-clear tv k i e = go (i == k) refl
  where
    go : (b : Bool) → (i == k) ≡ b → In e (if b then [] else tv i) → (i ≢ k) × In e (tv i)
    go true s q = elim q [ ]
    go false s q = ((λ h. absurd (cc (sym (==_self i) ∙ ap (◌==◌ i) h ∙ s))), q)

In-without : (id : ℕ) (xs : List TimerEle) (e : TimerEle) → In e (without id xs) → In e xs
unfolding without
In-without id [] e h = elim h [ ]
In-without id (x ∷ xs) e h = go (x.id == id) (In-without id xs e) h
  where
    go :
        (b : Bool)
        → (In e (without id xs) → In e xs)
        → In e (if b then without id xs else x ∷ without id xs)
        → In e (x ∷ xs)
    go true rest q = inr (rest q)
    go false rest (inl q) = inl q
    go false rest (inr q) = inr (rest q)

pub In-spread :
    (es : List TimerEle) (tv : ℕ → List TimerEle) (i : ℕ) (e : TimerEle)
    → In e (spread es tv i)
    → (In e es × (i ≡ e.expires % 256)) ⊎ In e (tv i)
unfolding spread
In-spread [] tv i e h = inr h
In-spread (x ∷ es) tv i e h = go (In-spread es (hlist_add tv (x.expires % 256) x) i e h)
  where
    more :
        ((i ≡ x.expires % 256) × (e ≡ x)) ⊎ In e (tv i)
        → (In e (x ∷ es) × (i ≡ e.expires % 256)) ⊎ In e (tv i)
    more (inl (p, q)) = inl (inl q, p ∙ ap (λ (y : TimerEle). y.expires % 256) (sym q))
    more (inr q) = inr q

    go :
        (In e es × (i ≡ e.expires % 256)) ⊎ In e (hlist_add tv (x.expires % 256) x i)
        → (In e (x ∷ es) × (i ≡ e.expires % 256)) ⊎ In e (tv i)
    go (inl (p, q)) = inl (inr p, q)
    go (inr q) = more (In-hlist_add tv (x.expires % 256) i x e q)

abbrev removed : TickTimer → ℕ → TickTimer
removed t id = record t {
  tv1 = λ i. without id (t.tv1 i);
  tv2 = λ i. without id (t.tv2 i);
  size = (t.size + 2 ^ 32 - 1) % 2 ^ 32;
}

pub del_timer-Sound : (t : TickTimer) (id : ℕ) → Sound t → Sound (del_timer t id)
unfolding del_timer
del_timer-Sound t id v = go (hashed t id)
  where
    go : (b : Bool) → Sound (if b then removed t id else t)
    go true = record {
      range = v.range;
      near = λ i e h. v.near i e (In-without id (t.tv1 i) e h);
      far = λ i e h. v.far i e (In-without id (t.tv2 i) e h);
    }
    go false = v

pub del_timer-now : (t : TickTimer) (id : ℕ) → (del_timer t id).now ≡ t.now
unfolding del_timer
del_timer-now t id = go (hashed t id)
  where
    go : (b : Bool) → (if b then removed t id else t).now ≡ t.now
    go true = refl
    go false = refl

abbrev pub timer : TickTimer → ℕ → ℕ → TimerEle
timer t id d = record { id = id; expires = (t.now + d) % 2 ^ 32; interval = d }

module _ (t : TickTimer) (id d : ℕ) where
  abbrev pub near_wheel : TickTimer
  near_wheel = record t {
    size = (t.size + 1) % 2 ^ 32;
    tv1 = hlist_add t.tv1 ((t.now + d) % 2 ^ 32 % 256) (timer t id d);
  }

  abbrev pub far_wheel : TickTimer
  far_wheel = record t {
    size = (t.size + 1) % 2 ^ 32;
    tv2 = hlist_add t.tv2 ((t.now + d) % 2 ^ 32 / 256 % 256) (timer t id d);
  }

  pub place_near : d < 256 → place t id d ≡ near_wheel
  unfolding place
  place_near h = rw (lt→ltb d 256 h)

  pub place_far : 256 ≤ d → place t id d ≡ far_wheel
  unfolding place
  place_far h = rw (ltb-false d 256 h)

  pub place-Sound : 1 ≤ d → d ≤ 65536 → Sound t → Sound (place t id d)
  place-Sound a b v = elim (dec_lt d 256) [
    | yes h ↦ rw (place_near h) (record {
      range = v.range;
      near = λ i e q. near_case h i e (In-hlist_add t.tv1 _ i (timer t id d) e q);
      far = v.far;
    })
    | no h ↦ rw (place_far (omega (arith, h))) (record {
      range = v.range;
      near = v.near;
      far = λ i e q. far_case (omega (arith, h)) i e (In-hlist_add t.tv2 _ i (timer t id d) e q);
    })
  ]
    where
      near_case :
          d < 256
          → (i : ℕ) (e : TimerEle)
          → ((i ≡ (t.now + d) % 2 ^ 32 % 256) × (e ≡ timer t id d)) ⊎ In e (t.tv1 i)
          → (r : ℕ) × DueIn t.now r e × (r < 256) × (i ≡ (t.now + r) % 256)
      near_case h i e (inl (p, q)) =
          (d, (a, ap (λ (y : TimerEle). y.expires) q), h, omega (arith, p))
      near_case h i e (inr q) = v.near i e q

      far_case :
          256 ≤ d
          → (i : ℕ) (e : TimerEle)
          → ((i ≡ (t.now + d) % 2 ^ 32 / 256 % 256) × (e ≡ timer t id d)) ⊎ In e (t.tv2 i)
          → (r : ℕ) × DueIn t.now r e
            × (1 ≤ (t.now % 256 + r) / 256)
            × ((t.now % 256 + r) / 256 ≤ 256)
            × (i ≡ (t.now / 256 + (t.now % 256 + r) / 256) % 256)
      far_case h i e (inl (p, q)) =
          (d, (a, ap (λ (y : TimerEle). y.expires) q), omega arith, omega arith, omega (arith, p))
      far_case h i e (inr q) = v.far i e q
