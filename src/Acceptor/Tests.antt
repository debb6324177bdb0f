-- ===== src/Acceptor/Tests.antt =====
-- Three connections on a pool of two services.
use fighting_card.Base.{◌≡◌, refl, true, false, none, some, [], ◌∷◌, arith}
use fighting_card.IoServicePool.{Pool}
use fighting_card.Server.{adds}
use fighting_card.Acceptor.{GameServer, do_accept, accept_all}
use fighting_card.Acceptor.Accepted.{accept_error_ends, connected, accept_all-in_turn}

abbrev pool : Pool
pool = record { io_services = 2; works = []; next_io_service = 0; stopped = [] }

abbrev listening : GameServer
listening = record { pool = pool; accepting = some 1; sessions = []; posted = [] }

accept_error_ends_example :
    (last : GameServer) × (accept_all listening ((true, 0) ∷ (false, 5) ∷ []) ≡ some last)
    × (last.sessions ≡ [])
    × (last.posted ≡ [])
accept_error_ends_example = accept_error_ends listening 0 ((false, 5) ∷ [])

accept_all-in_turn_example :
    (first last : GameServer) × (do_accept (record listening { accepting = none }) ≡ some first)
    × (accept_all first (connected (5 ∷ 6 ∷ 7 ∷ [])) ≡ some last)
    × (last.sessions ≡ (5, 0) ∷ (6, 1) ∷ (7, 0) ∷ [])
    × (last.posted ≡ adds 5 ∷ adds 6 ∷ adds 7 ∷ [])
accept_all-in_turn_example =
    accept_all-in_turn pool (5 ∷ 6 ∷ 7 ∷ []) (omega arith) refl (omega arith)
