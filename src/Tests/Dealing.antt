-- ===== src/Tests/Dealing.antt =====
-- A run of the dealer (dealer.cpp) in which the second message fails.
use high_perf_server.Base.{ℕ, ◌≡◌, refl, true, List, [], ◌∷◌, length, ltb}
use high_perf_server.Msg.Cache.{Cache}
use high_perf_server.Msg.Reader.Cuts.{delivered}
use high_perf_server.Node.Deal.{
  thread_write, thread_dealer, Proc, Move, pushes, runs, moves, move, push_msg, push_write,
  push_deal, proc_deal_que, deal_all, deal_msg, new_dealing,
}
use high_perf_server.Node.Deal.Fifo.{InOrder, for_dealer, moves-InOrder}

abbrev second_fails : Proc
second_fails given msg = ltb 0 (length given)

abbrev msg_of : ℕ → Cache
msg_of n = delivered (n ∷ [])

abbrev story : List Move
story =
    pushes thread_dealer true (msg_of 1)
    ∷ runs true
    ∷ pushes thread_write true (msg_of 9)
    ∷ pushes thread_dealer true (msg_of 2)
    ∷ pushes thread_dealer true (msg_of 3)
    ∷ runs true
    ∷ []

story_given : (moves second_fails story new_dealing).given ≡ msg_of 1 ∷ msg_of 2 ∷ []
unfolding moves move push_msg push_write push_deal proc_deal_que deal_all deal_msg
story_given = refl

moves-InOrder_example :
    InOrder second_fails (for_dealer story) (moves second_fails story new_dealing)
moves-InOrder_example = moves-InOrder second_fails story
