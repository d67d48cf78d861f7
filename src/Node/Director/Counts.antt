-- ===== src/Node/Director/Counts.antt =====
-- How often a descriptor is open and how often a node has it, under the operations of the director
-- (director.cpp).
use high_perf_server.Base.{
  ℕ, zero, suc, ◌+◌, ◌-◌, ◌≡◌, refl, ap, ◌∙◌, Bool, true, false, Option, none, some, List, [], ◌∷◌,
  ◌++◌, ◌==◌, if◌then◌else◌, arith, Bool-cases, inl, inr,
}
use high_perf_server.Base.Int.{ℤ, pos, negsuc}
use high_perf_server.Msg.Cache.{Cache}
use high_perf_server.Sock.Calls.{Fds, close_fd}
use high_perf_server.Node.Build.{
  NodeBase, Freeing, has_sock, finish_queues, finish_at, finish_base, free_dummy_at, free_sock,
  free_base, free_node_at, free_node,
}
use high_perf_server.Node.Epoll.{Flags}
use high_perf_server.Node.Director.{Entry, register_last, pull, close_all, held}

abbrev pub count : ℕ → List ℕ → ℕ
count n [] = 0
count n (x ∷ xs) = if x == n then suc (count n xs) else count n xs

abbrev pub numbers : Fds → List ℕ
numbers [] = []
numbers (fd ∷ fds) = fd.number ∷ numbers fds

abbrev pub numbers_of : ℤ → List ℕ → List ℕ
numbers_of (pos n) ns = n ∷ ns
numbers_of (negsuc n) ns = ns

abbrev pub node_numbers : List Entry → List ℕ
node_numbers [] = []
node_numbers (e ∷ es) = numbers_of e.base.fd (node_numbers es)

pub count_of :
    (n : ℕ) (z : ℤ) (ns : List ℕ)
    → count n (numbers_of z ns) ≡ count n (numbers_of z []) + count n ns
count_of n (pos m) ns = elim (Bool-cases (m == n)) [
  | inl e ↦ rw e (omega arith)
  | inr e ↦ rw e (omega arith)
]
count_of n (negsuc m) ns = omega arith

pub count-snoc :
    (n : ℕ) (es : List Entry) (e : Entry)
    → count n (node_numbers (es ++ e ∷ []))
      ≡ count n (numbers_of e.base.fd []) + count n (node_numbers es)
count-snoc n [] e = omega arith
count-snoc n (x ∷ es) e =
    let rest = count-snoc n es e in
    omega (
      arith,
      count_of n x.base.fd (node_numbers (es ++ e ∷ [])),
      rest,
      count_of n x.base.fd (node_numbers es),
    )

pub register_last-numbers :
    (ev : Flags) (ok_rd ok_wr : Bool) (es : List Entry) (size : ℕ)
    → node_numbers ((register_last ev ok_rd ok_wr es size).0) ≡ node_numbers es
register_last-numbers ev ok_rd ok_wr [] size = refl
register_last-numbers ev ok_rd ok_wr (e ∷ []) size = refl
register_last-numbers ev ok_rd ok_wr (e ∷ e' ∷ es) size =
    ap (numbers_of e.base.fd) (register_last-numbers ev ok_rd ok_wr (e' ∷ es) size)

-- One descriptor less.
abbrev pub one : ℕ → ℕ → ℕ
one n fd = if fd == n then 1 else 0

drop_one :
    (n fd m c c' : ℕ)
    → c' ≡ c - one n fd
    → (if m == fd then c else (if m == n then suc c' else c'))
      ≡ (if m == n then suc c else c) - one n fd
drop_one n fd m c c' h = ground arith

count_if :
    {A : Type 0} (f : A → ℕ) (b : Bool) (s t : A)
    → f (if b then s else t) ≡ (if b then f s else f t)
count_if f true s t = refl
count_if f false s t = refl

pub count-close_fd :
    (n fd : ℕ) (s : Fds) → count n (numbers (close_fd fd s)) ≡ count n (numbers s) - one n fd
count-close_fd n fd [] = omega arith
count-close_fd n fd (d ∷ s) =
    count_if (λ t. count n (numbers t)) (d.number == fd) s (d ∷ close_fd fd s)
    ∙ drop_one n fd d.number (count n (numbers s)) (count n (numbers (close_fd fd s)))
        (count-close_fd n fd s)

-- A node that is pulled out takes its descriptor along.
abbrev pub Split : ℕ → List Entry → Option (Entry × List Entry) → Type 0
Split n es none = Unit {0}
Split n es (some (e, rest)) =
    count n (node_numbers es) ≡ count n (numbers_of e.base.fd []) + count n (node_numbers rest)

pub pull-Split : (n i : ℕ) (es : List Entry) → Split n es (pull i es)
pull-Split n i [] = tt
pull-Split n zero (e ∷ es) = count_of n e.base.fd (node_numbers es)
pull-Split n (suc i) (e ∷ es) = behind (pull i es) (pull-Split n i es)
  where
    behind :
        (o : Option (Entry × List Entry))
        → Split n es o
        → Split n (e ∷ es) (elim o [ none ↦ none | some (found, rest) ↦ some (found, e ∷ rest) ])
    behind none h = tt
    behind (some (found, rest)) h =
        omega (
          arith,
          h,
          count_of n e.base.fd (node_numbers es),
          count_of n e.base.fd (node_numbers rest),
        )

-- The freeing of a node closes its descriptor, if it has one.
finished_closes :
    (fd : ℤ) (s : Freeing) → s.closed ≡ [] → (finish_at fd s).closed ≡ numbers_of fd []
unfolding finish_queues
finished_closes (pos fd) s e = ap (λ ns. ns ++ fd ∷ []) e
finished_closes (negsuc n) s e = e

pub free_node_closes : (n : NodeBase) → (free_node (held n)).closed ≡ numbers_of n.fd []
unfolding free_node free_sock free_base finish_base
free_node_closes n = by_type (has_sock n.node_type) n.rcv_dummy
  where
    by_dummy :
        (o : Option Cache) → (finish_base (free_dummy_at o (held n))).closed ≡ numbers_of n.fd []
    by_dummy none = finished_closes n.fd (held n) refl
    by_dummy (some msg) = finished_closes n.fd (free_dummy_at (some msg) (held n)) refl

    by_type : (b : Bool) (o : Option Cache) → (free_node_at b (held n)).closed ≡ numbers_of n.fd []
    by_type true o = by_dummy n.rcv_dummy
    by_type false o = finished_closes n.fd (held n) refl

pub count-close_all :
    (n : ℕ) (fd : ℤ) (s : Fds)
    → count n (numbers (close_all (numbers_of fd []) s))
      ≡ count n (numbers s) - count n (numbers_of fd [])
count-close_all n (pos fd) s = count-close_fd n fd s
count-close_all n (negsuc m) s = omega arith
