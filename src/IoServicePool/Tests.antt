-- ===== src/IoServicePool/Tests.antt =====
-- A pool of three services.
use fighting_card.Base.{◌≡◌, ◌↔◌, refl, none, some, [], ◌∷◌, arith}
use fighting_card.IoServicePool.{Pool, init, get_io_service, take_turns}
use fighting_card.IoServicePool.Turns.{init_round_robin, get_io_service_fault}

abbrev empty_pool : Pool
empty_pool = record { io_services = 0; works = []; next_io_service = 0; stopped = [] }

init_round_robin_example :
    (last : Pool) × (take_turns 5 (init 3 empty_pool) ≡ some (last, 0 ∷ 1 ∷ 2 ∷ 0 ∷ 1 ∷ []))
init_round_robin_example = init_round_robin 3 5 empty_pool (omega arith) refl (omega arith)

get_io_service_fault_example : (get_io_service empty_pool ≡ none) ↔ (empty_pool.io_services ≡ 0)
get_io_service_fault_example = get_io_service_fault empty_pool
