-- ===== src/Task/Shared/CheckIn.antt =====
-- An event that is checked in (BitDoor::checkin and Pooler::add of tasker.cpp) leads from one state of
-- a shared task to another.
use high_perf_server.Base.{
  ℕ, ◌+◌, ◌≤◌, ◌<◌, ◌≡◌, refl, sym, ap, ◌∙◌, ◌≢◌, ◌⊎◌, inl, inr, false, arith, ℕ_discrete,
}
use high_perf_server.Base.Bits.{bit, bit-zero}
use high_perf_server.Task.Door.Words.{high, Awaits}
use high_perf_server.Task.Door.Laws.{
  Covered, NoHigh, Marked, Marked-ne-zero, NoHigh-small, checkin_yes, checkin_no, end_yes, end_no,
  end_word, checkin_invalid,
}
use high_perf_server.Task.Door.{checkin}
use high_perf_server.Task.Shared.{Shared, Visit, away, inside, visits, claims, check_in}
use high_perf_server.Task.Shared.Shapes.{
  Plain, Busy, Idle, Waiting, Gone, Shape, busy, idle, waiting, gone,
}
use high_perf_server.Task.Shared.Arrived.{
  event, end, invalid, kind, not_awaited, check_in_no, check_in_yes, after, after_high, after_low,
  after_Covered, after_Awaits, after_Marked, after_Plain,
}

module _ (s : Shared) (ev : ℕ) (a : 1 ≤ ev) (b : ev < 15) where
  Busy-event : Busy s → Busy (check_in s ev)
  Busy-event v =
      let no =
        checkin_no s.word ev a b (Marked-ne-zero v.marked) (not_awaited s.word ev v.covered) in
      rw (check_in_no s ev no) (record {
        one = v.one;
        here = v.here;
        fresh = v.fresh;
        marked = after_Marked s.word ev a b;
        covered = after_Covered s.word ev a b (λ i h. absurd (not_awaited s.word i v.covered h));
        plain = after_Plain s.word ev a b s.visit v.plain;
      })

  -- A task with no claim is queued by the event, and gets its only claim.
  pub queued :
      claims s ≡ 0
      → s.gone ≡ false
      → s.ends ≡ 0
      → (s.word ≡ 0) ⊎ Awaits ev s.word
      → ((i : ℕ) → Awaits i s.word → i ≡ ev)
      → Busy (check_in s ev)
  queued none here fresh asks only =
      rw (check_in_yes s ev (checkin_yes s.word ev a b asks)) (record {
        one = omega arith;
        here = here;
        fresh = fresh;
        marked = after_Marked s.word ev a b;
        covered = after_Covered s.word ev a b only;
        plain = plain_away s.visit (omega arith);
      })
    where
      plain_away : (v : Visit) → visits v ≡ 0 → Plain v (after s.word ev a b)
      plain_away away e = tt
      plain_away (inside o) e = absurd (omega arith)

  pub Idle-event : Idle s → Busy (check_in s ev)
  Idle-event v =
      queued v.none v.here v.fresh (inl v.clear)
        (λ i h. absurd (omega (arith, h.0, ap (high i) v.clear, bit-zero (i + 16))))

  Waiting-event : (e : ℕ) → Waiting s e → Shape (check_in s ev)
  Waiting-event e v = elim (ℕ_discrete e ev) [
    | yes same ↦
        busy (queued v.none v.here v.fresh (inr (rw (← same) v.awaits)) (λ i h. v.alone i h ∙ same))
    | no other ↦ waiting e (
        rw (check_in_no s ev (refused other)) (record {
          none = v.none;
          here = v.here;
          fresh = v.fresh;
          awaits = (
            after_high s.word ev a b e ∙ v.awaits.0,
            after_low s.word ev a b e other ∙ v.awaits.1,
          );
          alone = λ i h. v.alone i (after_Awaits s.word ev a b i h);
          event = v.event;
        }))
  ]
    where
      refused : e ≢ ev → (checkin s.word ev).1 ≡ false
      refused other =
          checkin_no s.word ev a b
            (λ z. omega (arith, v.awaits.0, ap (high e) z, bit-zero (e + 16)))
            (λ h. other (sym (v.alone ev h)))

  Gone-event : Gone s → Gone (check_in s ev)
  Gone-event v =
      let no =
        checkin_no s.word ev a b (Marked-ne-zero v.marked) (not_awaited s.word ev v.covered) in
      rw (check_in_no s ev no) (record {
        none = v.none;
        gone = v.gone;
        once = v.once;
        marked = after_Marked s.word ev a b;
        covered = after_Covered s.word ev a b (λ i h. absurd (not_awaited s.word i v.covered h));
      })

-- The word that the end leaves.
end_Marked : (w : ℕ) → w ≡ 0xFFFF → Marked w
end_Marked w e = (0, rw e (unfold bit in refl))

end_NoHigh : (w : ℕ) → w ≡ 0xFFFF → NoHigh w
end_NoHigh w e = NoHigh-small w (omega arith)

NoHigh-Covered : (w : ℕ) → NoHigh w → Covered w
NoHigh-Covered w h i e = absurd (omega (arith, h i))

NoHigh-Plain : (w : ℕ) (v : Visit) → NoHigh w → Plain v w
NoHigh-Plain w away h = tt
NoHigh-Plain w (inside o) h = h

module _ (s : Shared) where
  abbrev ended : ℕ
  ended = (checkin s.word 15).0

  ended-NoHigh : NoHigh ended
  ended-NoHigh = end_NoHigh ended (end_word s.word)

  ended-Marked : Marked ended
  ended-Marked = end_Marked ended (end_word s.word)

  Busy-end : Busy s → Busy (check_in s 15)
  Busy-end v = rw (check_in_no s 15 (end_no s.word (Marked-ne-zero v.marked) v.covered)) (record {
    one = v.one;
    here = v.here;
    fresh = v.fresh;
    marked = ended-Marked;
    covered = NoHigh-Covered ended ended-NoHigh;
    plain = NoHigh-Plain ended s.visit ended-NoHigh;
  })

  -- The end queues a task that has no claim.
  pub queued_end :
      (e : ℕ)
      → claims s ≡ 0
      → s.gone ≡ false
      → s.ends ≡ 0
      → (s.word ≡ 0) ⊎ Awaits e s.word
      → Busy (check_in s 15)
  queued_end e none here fresh asks = rw (check_in_yes s 15 (end_yes s.word e asks)) (record {
    one = omega arith;
    here = here;
    fresh = fresh;
    marked = ended-Marked;
    covered = NoHigh-Covered ended ended-NoHigh;
    plain = NoHigh-Plain ended s.visit ended-NoHigh;
  })

  Gone-end : Gone s → Gone (check_in s 15)
  Gone-end v = rw (check_in_no s 15 (end_no s.word (Marked-ne-zero v.marked) v.covered)) (record {
    none = v.none;
    gone = v.gone;
    once = v.once;
    marked = ended-Marked;
    covered = NoHigh-Covered ended ended-NoHigh;
  })

  Shape-end : Shape s → Shape (check_in s 15)
  Shape-end (busy v) = busy (Busy-end v)
  Shape-end (idle v) = busy (queued_end 0 v.none v.here v.fresh (inl v.clear))
  Shape-end (waiting e v) = busy (queued_end e v.none v.here v.fresh (inr v.awaits))
  Shape-end (gone v) = gone (Gone-end v)

Shape-event : (s : Shared) (ev : ℕ) → 1 ≤ ev → ev < 15 → Shape s → Shape (check_in s ev)
Shape-event s ev a b (busy v) = busy (Busy-event s ev a b v)
Shape-event s ev a b (idle v) = busy (Idle-event s ev a b v)
Shape-event s ev a b (waiting e v) = Waiting-event s ev a b e v
Shape-event s ev a b (gone v) = gone (Gone-event s ev a b v)

pub check_in_invalid : (s : Shared) (ev : ℕ) → (ev ≡ 0) ⊎ (15 < ev) → check_in s ev ≡ s
unfolding check_in
check_in_invalid s ev h = rw (checkin_invalid s.word ev h)

pub check_in-Shape : (s : Shared) (ev : ℕ) → Shape s → Shape (check_in s ev)
check_in-Shape s ev v = elim (kind ev) [
  | event a b ↦ Shape-event s ev a b v
  | end e ↦ rw e (Shape-end s v)
  | invalid h ↦ rw (check_in_invalid s ev h) v
]
