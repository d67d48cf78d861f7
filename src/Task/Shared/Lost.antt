-- ===== src/Task/Shared/Lost.antt =====
-- What comes of an event that is checked in while its task is run, whatever else happens before the
-- run ends (Pooler::add and consume of tasker.cpp).
use high_perf_server.Base.{
  ℕ, ◌≤◌, ◌<◌, ◌≡◌, ◌≢◌, refl, ap, ◌∙◌, ◌⊎◌, inl, inr, true, false, arith, ◌==◌, ==_iff, ℕ_discrete,
}
use high_perf_server.Base.Bits.{bit, bit-le, passes, passes_each}
use high_perf_server.Task.Door.Words.{low}
use high_perf_server.Task.Door.Laws.{bit-checkin, end_word}
use high_perf_server.Task.Door.{is_eof, checkin}
use high_perf_server.Task.Shared.{
  Shared, Visit, away, inside, claims, check_in, leave_task, Step, checks_in, adds, splices, locks,
  finishes, Reach, later,
}
use high_perf_server.Task.Shared.Shapes.{Busy}
use high_perf_server.Task.Shared.Visits.{finish_event, not_arrived}
use high_perf_server.Task.Shared.Arrived.{Kind, event, end, invalid, kind}
use high_perf_server.Task.Shared.CheckIn.{check_in_invalid, queued, queued_end}
use high_perf_server.Task.Shared.Invariant.{Reach-Shape}
use high_perf_server.Task.Shared.Arrivals.{visited-Busy, check_in-visit, norm_kept, event_kept}

-- The states of one run of the task: other threads check events in and push, the worker splices.
pub data During (old : ℕ) (s : Shared) : Shared → Type 0 where
  now : During old s s
  next : {t u : Shared} → During old s t → Step t u → u.visit ≡ inside old → During old s u

-- How a task stands behind a run that returned `ret`, if event `ev` has come: it keeps its claim; or
-- it waits for `ret`, another event, and both this one and the end give it its claim back.
abbrev pub Noticed : ℕ → ℕ → Shared → Type 0
Noticed ev ret u =
    (claims u ≡ 1)
    ⊎ ((claims u ≡ 0)
        × (2 ≤ ret)
        × (ret ≢ ev)
        × (claims (check_in u ret) ≡ 1)
        × (claims (check_in u 15) ≡ 1))

end_bits : passes (λ i. bit i 0xFFFF == 1) 16 ≡ true
unfolding passes bit
end_bits = refl

end_bit : (i w : ℕ) → i < 16 → low i (checkin w 15).0 ≡ 1
end_bit i w h =
    ap (bit i) (end_word w) ∙ (==_iff _ _).0 (passes_each (λ j. bit j 0xFFFF == 1) 16 i h end_bits)

low-check_in : (s : Shared) (i ev : ℕ) → i < 16 → low i s.word ≡ 1 → low i (check_in s ev).word ≡ 1
unfolding check_in
low-check_in s i ev h l = by_kind (kind ev)
  where
    by_kind : Kind ev → low i (check_in s ev).word ≡ 1
    by_kind (event a b) = bit-checkin i s.word ev a b ∙ ground (arith, l, bit-le i s.word)
    by_kind (end e) = rw e (end_bit i s.word h)
    by_kind (invalid e) = ap (λ (t : Shared). low i t.word) (check_in_invalid s ev e) ∙ l

-- The event that is checked in.
low_self : (s : Shared) (ev : ℕ) → 1 ≤ ev → ev < 16 → low ev (check_in s ev).word ≡ 1
unfolding check_in
low_self s ev a b = by_kind (kind ev)
  where
    by_kind : Kind ev → low ev (check_in s ev).word ≡ 1
    by_kind (event c d) = bit-checkin ev s.word ev c d ∙ ground (arith, bit-le ev s.word)
    by_kind (end e) = rw e (end_bit 15 s.word (omega arith))
    by_kind (invalid (inl e)) = absurd (omega (arith, e))
    by_kind (invalid (inr e)) = absurd (omega (arith, e))

-- Only the end of a run takes the worker out of it.
inside_ne_away : {v : Visit} {old : ℕ} → v ≡ inside old → v ≡ away → ⊥
inside_ne_away e f = cc

low-Step :
    {t u : Shared} (old i : ℕ)
    → Step t u
    → t.visit ≡ inside old
    → u.visit ≡ inside old
    → i < 16
    → low i t.word ≡ 1
    → low i u.word ≡ 1
unfolding leave_task
low-Step {t} old i (checks_in ev) e f h l = low-check_in t i ev h l
low-Step old i (adds rest a) e f h l = l
low-Step old i splices e f h l = l
low-Step old i (locks rest a b) e f h l = absurd (inside_ne_away e b)
low-Step old i (finishes o r a) e f h l = absurd (inside_ne_away f refl)

During-visit :
    {old : ℕ} {s t : Shared} → s.visit ≡ inside old → During old s t → t.visit ≡ inside old
During-visit e now = e
During-visit e (next d step f) = f

During-Reach : {old : ℕ} {s t : Shared} → Reach s → During old s t → Reach t
During-Reach r now = r
During-Reach r (next d step f) = later (During-Reach r d) step

During-low :
    (old i : ℕ) {s t : Shared}
    → s.visit ≡ inside old
    → i < 16
    → low i s.word ≡ 1
    → During old s t
    → low i t.word ≡ 1
During-low old i e h l now = l
During-low old i e h l (next d step f) =
    low-Step old i step (During-visit e d) f h (During-low old i e h l d)

module _ (t : Shared) (old ev ret : ℕ) (at : t.visit ≡ inside old) (v : Busy t)
    (on : is_eof old ≡ false) (a : 1 ≤ ev) (l : low ev t.word ≡ 1) where
  abbrev done : Shared
  done = leave_task t old ret

  event-Noticed : 2 ≤ ret → ret < 15 → Noticed ev ret done
  event-Noticed c d = elim (ℕ_discrete (low ret t.word) 1) [
    | yes e ↦ inl (event_kept t old ret at v on (omega arith) e d c)
    | no n ↦
        let w =
          not_arrived t old at v ret on c d (finish_event t.word ret c d)
            (omega (arith, bit-le ret t.word)) in
        inr (
          w.none,
          c,
          (λ same. n (ap (λ i. low i t.word) same ∙ l)),
          (queued done ret (omega arith) d w.none w.here w.fresh (inr w.awaits) w.alone).one,
          (queued_end done ret w.none w.here w.fresh (inr w.awaits)).one,
        )
  ]

  done-Noticed : 1 ≤ ret → ret < 15 → Noticed ev ret done
  done-Noticed c d = elim (ℕ_discrete ret 1) [
    | yes e ↦ inl (ap (λ r. claims (leave_task t old r)) e ∙ norm_kept t old ev at v on a l)
    | no n ↦ event-Noticed (omega arith) d
  ]

-- No wake-up is lost: let an event from 1 to 15 be checked in while a reachable task is run, that has
-- not ended, and let other events, pushes and splices follow in any order and number until the run
-- returns NORM or an event `ret`. Then the task keeps its one claim; or
-- `ret` is another event that has not come, for which the task now waits, and both this event and the
-- end give it its one claim back. So it keeps its claim if the run returns NORM or that very event.
pub never_lost :
    {s t : Shared} (old ev ret : ℕ)
    → Reach s
    → s.visit ≡ inside old
    → is_eof old ≡ false
    → 1 ≤ ev
    → ev < 16
    → During old (check_in s ev) t
    → 1 ≤ ret
    → ret < 15
    → Noticed ev ret (leave_task t old ret)
never_lost {s} {t} old ev ret r at on a b d c e =
    let at' : (check_in s ev).visit ≡ inside old = check_in-visit s ev ∙ at in
    let here : t.visit ≡ inside old = During-visit at' d in
    let live = visited-Busy t old here (Reach-Shape (During-Reach (later r (checks_in ev)) d)) in
    let arrived = During-low old ev at' b (low_self s ev a b) d in
    done-Noticed t old ev ret here live on a arrived c e
