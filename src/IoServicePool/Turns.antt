-- ===== src/IoServicePool/Turns.antt =====
-- The order in which the services are given out.
use fighting_card.Base.{
  ℕ, zero, suc, ◌+◌, ◌%◌, ◌^◌, ◌≡◌, ◌<◌, ◌↔◌, ◌∙◌, refl, ap, inl, inr, none, some, List, [], ◌∷◌,
  arith, ◌==◌, ==_iff, Bool-cases, pos→==-false,
}
use fighting_card.Base.Word.{u64}
use fighting_card.IoServicePool.{Pool, init, get_io_service, take_turns}

-- `n` numbers from `k` on, each modulo `size`.
abbrev pub turns : ℕ → ℕ → ℕ → List ℕ
turns size k zero = []
turns size k (suc n) = k % size ∷ turns size (suc k) n

abbrev pub at_turn : ℕ → Pool → Pool
at_turn k p = record p { next_io_service = k }

pub get_io_service-next :
    (k : ℕ) (p : Pool)
    → 0 < p.io_services
    → suc k < 2 ^ 64
    → get_io_service (at_turn k p) ≡ some (at_turn (suc k) p, k % p.io_services)
unfolding get_io_service
get_io_service-next k p pos small = rw (pos→==-false p.io_services pos, no_wrap) refl
  where
    no_wrap : u64 (k + 1) ≡ suc k
    no_wrap = omega (arith, small)

take_turns-from :
    (n k : ℕ) (p : Pool)
    → 0 < p.io_services
    → k + n < 2 ^ 64
    → take_turns n (at_turn k p) ≡ some (at_turn (k + n) p, turns p.io_services k n)
unfolding take_turns
take_turns-from zero k p pos small = rw end refl
  where
    end : k + 0 ≡ k
    end = omega arith
take_turns-from (suc n) k p pos small =
    rw
      (
        get_io_service-next k p pos (omega (arith, small)),
        take_turns-from n (suc k) p pos (omega (arith, small)),
        end,
      )
      refl
  where
    end : suc k + n ≡ k + suc n
    end = omega arith

-- After `Init` of an empty pool with some services, the first calls, up to 2 ^ 64, give the
-- services 0, 1, …, and begin again after the last.
pub init_round_robin :
    (pool_size n : ℕ) (p : Pool)
    → 0 < pool_size
    → p.io_services ≡ 0
    → n < 2 ^ 64
    → (last : Pool) × (take_turns n (init pool_size p) ≡ some (last, turns pool_size 0 n))
unfolding init
init_round_robin pool_size n p pos empty small = (
  at_turn (0 + n) (init pool_size p),
  take_turns-from n 0 (init pool_size p) (omega (arith, pos)) (omega (arith, small))
      ∙ ap (λ size. some (at_turn (0 + n) (init pool_size p), turns size 0 n)) size,
)
  where
    size : p.io_services + pool_size ≡ pool_size
    size = omega (arith, empty)

-- `GetIoService` faults exactly on a pool without services, as `Init(0)` leaves an empty one:
-- `hardware_concurrency() - 1` is 0 on one core.
pub get_io_service_fault : (p : Pool) → (get_io_service p ≡ none) ↔ (p.io_services ≡ 0)
unfolding get_io_service
get_io_service_fault p = elim (Bool-cases (p.io_services == 0)) [
  | inl e ↦ (λ f. (==_iff p.io_services 0).0 e, λ z. rw e)
  | inr e ↦ (λ f. absurd (cc (rw e at f)), λ z. absurd (cc (e, (==_iff p.io_services 0).1 z)))
]
