-- ===== src/IoServicePool/Joins.antt =====
-- Whether `Join` returns.
use fighting_card.Base.{ℕ, zero, suc, ◌+◌, ◌<◌, ◌≡◌, ◌∙◌, refl, ap, true, false, arith}
use fighting_card.IoServicePool.{no_pool, replicate, init, any_runs, join_waits}
use fighting_card.IoServicePool.Turns.{at_turn}

some-runs : (n : ℕ) → 0 < n → any_runs (replicate true n) (replicate false n) ≡ true
some-runs zero h = absurd (omega (arith, h))
some-runs (suc n) h = refl

-- After `Init` with some services `Join` waits, whichever services have been given.
pub init-join_waits :
    (pool_size k : ℕ) → 0 < pool_size → join_waits (at_turn k (init pool_size no_pool)) ≡ true
unfolding join_waits init
init-join_waits pool_size k pos =
    ap (λ n. any_runs (replicate true n) (replicate false pool_size)) size ∙ some-runs pool_size pos
  where
    size : 0 + pool_size ≡ pool_size
    size = omega arith
