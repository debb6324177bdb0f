-- ===== src/IoServicePool.antt =====
-- common/io_service_pool.h and common/io_service_pool.cpp: the services that connections are
-- spread over. A service is the number of its place in the vector; threads are not modelled.
pub mod Turns
pub mod Joins
pub mod Tests
use fighting_card.Base.{
  ℕ, zero, suc, ◌+◌, ◌%◌, ◌-◌, ◌^◌, Bool, true, false, not, ◌&&◌, ◌||◌, Option, none, some, List,
  [], ◌∷◌, ◌++◌, ◌==◌, if◌then◌else◌, length, ◌>>=◌,
}
use fighting_card.Base.Word.{u64}

-- `io_services_` is its size; `works_` says which services have work that keeps them up.
pub record Pool : Type 0 where
  pub io_services : ℕ
  pub works : List Bool
  pub next_io_service : ℕ
  pub stopped : List Bool

-- `Instance` before `Init`.
abbrev pub no_pool : Pool
no_pool = record { io_services = 0; works = []; next_io_service = 0; stopped = [] }

abbrev pub replicate : Bool → ℕ → List Bool
replicate b zero = []
replicate b (suc n) = b ∷ replicate b n

-- `Init`: the loops append, so that a second call adds to what is there and makes a second
-- `Work` for each service.
unfoldable pub init : ℕ → Pool → Pool
init pool_size p = record p {
  next_io_service = 0;
  io_services = p.io_services + pool_size;
  works = p.works ++ replicate true (p.io_services + pool_size);
  stopped = p.stopped ++ replicate false pool_size;
}

-- `GetIoService`; the counter is a `size_t`, and `% 0` is a fault.
unfoldable pub get_io_service : Pool → Option (Pool × ℕ)
get_io_service p =
    if p.io_services == 0
    then none
    else some (
      record p { next_io_service = u64 (p.next_io_service + 1) },
      p.next_io_service % p.io_services,
    )

abbrev all_false : List Bool → List Bool
all_false [] = []
all_false (b ∷ bs) = false ∷ all_false bs

unfoldable pub clear_work : Pool → Pool
clear_work p = record p { works = all_false p.works }

abbrev all_true : List Bool → List Bool
all_true [] = []
all_true (b ∷ bs) = true ∷ all_true bs

unfoldable pub stop : Pool → Pool
stop p = record p { stopped = all_true p.stopped }

-- Whether `Join` waits: the thread of a service returns when the service is stopped, or when its
-- work is gone and nothing is left for it to do, which is taken to be so.
abbrev pub any_runs : List Bool → List Bool → Bool
any_runs [] stopped = false
any_runs (w ∷ works) [] = w || any_runs works []
any_runs (w ∷ works) (s ∷ stopped) = (w && not s) || any_runs works stopped

unfoldable pub join_waits : Pool → Bool
join_waits p = any_runs p.works p.stopped

-- The services that `n` calls give.
unfoldable pub take_turns : ℕ → Pool → Option (Pool × List ℕ)
take_turns zero p = some (p, [])
take_turns (suc n) p = do
  (next, service) ← get_io_service p
  (last, services) ← take_turns n next
  some (last, service ∷ services)
