-- ===== src/Node/Epoll/Due.antt =====
-- No entry of the epoll sets (sockepoll.cpp) is passed over.
use high_perf_server.Base.{
  ◌≡◌, ◌⊎◌, inl, inr, refl, ap, ◌∙◌, Bool, true, false, not, ◌&&◌, ◌||◌, List, [], ◌∷◌, ◌++◌,
}
use mathlib.Core.Path.{subst}
use high_perf_server.Node.Epoll.Wait.{
  Ready, entries, Wake, reads, writes, fails, when, read_entry, write_entry, read_entries,
  write_entries, wait_wr, behind_loop, wait_event, Polled,
}

abbrev pub Member : {A : Type 0} → A → List A → Type 0
Member x [] = ⊥
Member x (y ∷ ys) = (x ≡ y) ⊎ Member x ys

-- What the entries of the two sets ask for; those of the second set count if it is ready itself.
pub data Due (rs ws : List Ready) : Wake → Type 0 where
  due_read :
      (r : Ready) → Member r rs → r.is_epoll_wr ≡ false → r.able ≡ true → Due rs ws (reads r.node)
  due_fail :
      (r : Ready) → Member r rs → r.is_epoll_wr ≡ false → r.broken ≡ true → Due rs ws (fails r.node)
  due_write :
      (r w : Ready)
      → Member r rs
      → r.is_epoll_wr ≡ true
      → (r.able || r.broken) ≡ true
      → Member w ws
      → w.able ≡ true
      → Due rs ws (writes w.node)
  due_wr_fail :
      (r w : Ready)
      → Member r rs
      → r.is_epoll_wr ≡ true
      → (r.able || r.broken) ≡ true
      → Member w ws
      → w.broken ≡ true
      → Due rs ws (fails w.node)

module _ {A : Type 0} (x : A) where
  Member-left : (xs ys : List A) → Member x xs → Member x (xs ++ ys)
  Member-left [] ys h = elim h [ ]
  Member-left (y ∷ xs) ys (inl e) = inl e
  Member-left (y ∷ xs) ys (inr h) = inr (Member-left xs ys h)

  Member-right : (xs ys : List A) → Member x ys → Member x (xs ++ ys)
  Member-right [] ys h = h
  Member-right (y ∷ xs) ys h = inr (Member-right xs ys h)

Member-when : (b : Bool) (w : Wake) → b ≡ true → Member w (when b w)
Member-when true w e = inl refl
Member-when false w e = cc

entry_reads :
    (r : Ready) → r.is_epoll_wr ≡ false → r.able ≡ true → Member (reads r.node) (read_entry r)
unfolding read_entry
entry_reads r e f =
    Member-left (reads r.node) (when (r.able && not r.is_epoll_wr) (reads r.node))
      (when (r.broken && not r.is_epoll_wr) (fails r.node))
      (Member-when (r.able && not r.is_epoll_wr) (reads r.node)
        (ap (λ b. b && not r.is_epoll_wr) f ∙ ap not e))

entry_fails :
    (r : Ready) → r.is_epoll_wr ≡ false → r.broken ≡ true → Member (fails r.node) (read_entry r)
unfolding read_entry
entry_fails r e f =
    Member-right (fails r.node) (when (r.able && not r.is_epoll_wr) (reads r.node))
      (when (r.broken && not r.is_epoll_wr) (fails r.node))
      (Member-when (r.broken && not r.is_epoll_wr) (fails r.node)
        (ap (λ b. b && not r.is_epoll_wr) f ∙ ap not e))

read_entries-Member :
    (b : Bool) (r : Ready) (rs : List Ready) (w : Wake)
    → Member r rs
    → Member w (read_entry r)
    → Member w ((read_entries b rs).1)
read_entries-Member b r [] w h k = elim h [ ]
read_entries-Member b r (q ∷ rs) w (inl e) k =
    Member-left w (read_entry q)
      ((read_entries (b || (q.is_epoll_wr && (q.able || q.broken))) rs).1)
      (subst (λ q. Member w (read_entry q)) e k)
read_entries-Member b r (q ∷ rs) w (inr h) k =
    Member-right w (read_entry q)
      ((read_entries (b || (q.is_epoll_wr && (q.able || q.broken))) rs).1)
      (read_entries-Member (b || (q.is_epoll_wr && (q.able || q.broken))) r rs w h k)

write_entries-Member :
    (r : Ready) (rs : List Ready) (w : Wake)
    → Member r rs
    → Member w (write_entry r)
    → Member w (write_entries rs)
write_entries-Member r [] w h k = elim h [ ]
write_entries-Member r (q ∷ rs) w (inl e) k =
    Member-left w (write_entry q) (write_entries rs) (subst (λ q. Member w (write_entry q)) e k)
write_entries-Member r (q ∷ rs) w (inr h) k =
    Member-right w (write_entry q) (write_entries rs) (write_entries-Member r rs w h k)

or_true : (b : Bool) → (b || true) ≡ true
or_true true = refl
or_true false = refl

-- Once the second set is to be asked, it is.
needed_already : (b : Bool) (rs : List Ready) → b ≡ true → (read_entries b rs).0 ≡ true
needed_already b [] e = e
needed_already b (q ∷ rs) e =
    needed_already (b || (q.is_epoll_wr && (q.able || q.broken))) rs
      (ap (λ b. b || (q.is_epoll_wr && (q.able || q.broken))) e)

needed :
    (b : Bool) (r : Ready) (rs : List Ready)
    → Member r rs
    → r.is_epoll_wr ≡ true
    → (r.able || r.broken) ≡ true
    → (read_entries b rs).0 ≡ true
needed b r [] h e f = elim h [ ]
needed b r (q ∷ rs) (inl g) e f = needed_already (b || (q.is_epoll_wr && (q.able || q.broken))) rs (
    ap (λ c. b || c)
      (subst (λ q. (q.is_epoll_wr && (q.able || q.broken)) ≡ true) g
        (ap (λ c. c && (r.able || r.broken)) e ∙ f))
    ∙ or_true b)
needed b r (q ∷ rs) (inr h) e f = needed (b || (q.is_epoll_wr && (q.able || q.broken))) r rs h e f

module _ (wr : Polled) (w : Wake) where
  behind-first : (o : Bool × List Wake) → Member w (o.1) → Member w ((behind_loop wr o).1)
  behind-first (true, wakes) h = Member-left w wakes ((wait_wr wr).1) h
  behind-first (false, wakes) h = h

  behind-second :
      (o : Bool × List Wake)
      → o.0 ≡ true
      → Member w ((wait_wr wr).1)
      → Member w ((behind_loop wr o).1)
  behind-second (true, wakes) e h = Member-right w wakes ((wait_wr wr).1) h
  behind-second (false, wakes) e h = cc

-- Whatever is due is done: each node of the first set that can be read gets a read event, each node of
-- the second one that can be written a write event, and each node with an error is failed. The second
-- set is asked as soon as its own entry is ready.
pub wait_event-Due :
    (rs ws : List Ready) (w : Wake)
    → Due rs ws w
    → Member w ((wait_event (entries rs) (entries ws)).1)
unfolding wait_event wait_wr write_entry
wait_event-Due rs ws w (due_read r h e f) =
    behind-first (entries ws) (reads r.node) (read_entries false rs)
      (read_entries-Member false r rs (reads r.node) h (entry_reads r e f))
wait_event-Due rs ws w (due_fail r h e f) =
    behind-first (entries ws) (fails r.node) (read_entries false rs)
      (read_entries-Member false r rs (fails r.node) h (entry_fails r e f))
wait_event-Due rs ws w (due_write r q h e f k g) =
    behind-second (entries ws) (writes q.node) (read_entries false rs) (needed false r rs h e f) (
      write_entries-Member q ws (writes q.node) k (
        Member-left (writes q.node) (when q.able (writes q.node)) (when q.broken (fails q.node))
          (Member-when q.able (writes q.node) g)))
wait_event-Due rs ws w (due_wr_fail r q h e f k g) =
    behind-second (entries ws) (fails q.node) (read_entries false rs) (needed false r rs h e f) (
      write_entries-Member q ws (fails q.node) k (
        Member-right (fails q.node) (when q.able (writes q.node)) (when q.broken (fails q.node))
          (Member-when q.broken (fails q.node) g)))
