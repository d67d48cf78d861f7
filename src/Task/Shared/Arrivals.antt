-- ===== src/Task/Shared/Arrivals.antt =====
-- An event that is checked in while its task is run (Pooler::add and consume of tasker.cpp).
use high_perf_server.Base.{ℕ, ◌≤◌, ◌<◌, ◌≡◌, ◌≢◌, refl, ap, ◌∙◌, Bool, false, arith}
use high_perf_server.Base.Bits.{bit, bit-le, bit-pow_ne}
use high_perf_server.Task.Door.Words.{low}
use high_perf_server.Task.Door.Laws.{bit-checkin, checkout_no, release_other}
use high_perf_server.Task.Door.{is_eof, checkout}
use high_perf_server.Task.Pooler.{finish_task}
use high_perf_server.Task.Shared.{Shared, inside, visits, claims, check_in, leave_task}
use high_perf_server.Task.Shared.Shapes.{Busy, Shape, busy, idle, waiting, gone}
use high_perf_server.Task.Shared.Visits.{
  leave_going, word_NoHigh, none_visited, finish_norm, finish_event,
}

pub visited-Busy : (s : Shared) (old : ℕ) → s.visit ≡ inside old → Shape s → Busy s
visited-Busy s old e (busy v) = v
visited-Busy s old e (idle v) = absurd (none_visited s old e v.none)
visited-Busy s old e (waiting ev v) = absurd (none_visited s old e v.none)
visited-Busy s old e (gone v) = absurd (none_visited s old e v.none)

pub check_in-visit : (s : Shared) (ev : ℕ) → (check_in s ev).visit ≡ s.visit
unfolding check_in
check_in-visit s ev = refl

pub check_in-low : (s : Shared) (ev : ℕ) → 1 ≤ ev → ev < 15 → low ev (check_in s ev).word ≡ 1
unfolding check_in
check_in-low s ev a b = bit-checkin ev s.word ev a b ∙ ground (arith, bit-le ev s.word)

-- A task that stays in the queue keeps its claim.
kept_claim :
    (s : Shared) (old ret w : ℕ)
    → s.visit ≡ inside old
    → is_eof old ≡ false
    → finish_task s.word ret ≡ (w, false)
    → claims (leave_task s old ret) ≡ claims s
kept_claim s old ret w at on f =
    ap (λ (t : Shared). claims t) (leave_going s old ret w false on f) ∙ omega (arith, ap visits at)

module _ (s : Shared) (old ev : ℕ) (at : s.visit ≡ inside old) (v : Busy s)
    (on : is_eof old ≡ false) (a : 1 ≤ ev) (l : low ev s.word ≡ 1) where
  pub norm_kept : claims (leave_task s old 1) ≡ 1
  norm_kept =
      kept_claim s old 1 s.word at on (finish_norm s.word ∙ release_other s.word more) ∙ v.one
    where
      more : s.word ≢ 1
      more e = omega (arith, l, ap (bit ev) e, bit-pow_ne ev 0 (λ z. omega (arith, z, a)))

  pub event_kept : ev < 15 → 2 ≤ ev → claims (leave_task s old ev) ≡ 1
  event_kept b c =
      kept_claim s old ev (checkout s.word ev).0 at on (
        finish_event s.word ev c b
        ∙ ap (λ (d : Bool). ((checkout s.word ev).0, d))
            (checkout_no s.word ev (omega arith) l (word_NoHigh s old at v ev)))
      ∙ v.one
