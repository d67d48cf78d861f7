-- ===== src/Links/Cells.antt =====
-- What the stores of listnode.h do to one cell.
use high_perf_server.Base.{ℕ, ◌≡◌, ◌≢◌, ==_self, ==_ne}
use high_perf_server.Links.{store}

pub store_same : (f : ℕ → ℕ) (a v : ℕ) → store f a v a ≡ v
unfolding store
store_same f a v = rw (==_self a)

pub store_other : (f : ℕ → ℕ) (a v x : ℕ) → x ≢ a → store f a v x ≡ f x
unfolding store
store_other f a v x h = rw (==_ne x a h)
