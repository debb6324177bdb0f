-- ===== src/Threads.antt =====
-- common/logic_io.h, common/logic_io.cpp, common/master_io.h and common/master_io.cpp: the two
-- threads that have an `io_service` of their own. Such a service is the handlers that are posted
-- to it and have not been called, in their order, whether work keeps it up, and whether it is
-- stopped; a handler is a value of the type `T`.
pub mod Order
use fighting_card.Base.{
  Bool, true, false, ◌&&◌, ◌||◌, not, Option, none, some, List, [], ◌∷◌, ◌++◌, if◌then◌else◌,
}

pub record IoService (T : Type 0) : Type 0 where
  pub handlers : List T
  pub work : Bool
  pub stopped : Bool

-- `thread_` is whether it is joinable.
pub record LogicIo (T : Type 0) : Type 0 where
  pub io_service : IoService T
  pub thread : Bool

-- What `Join` does: it throws, it does not return yet, or it returns.
pub data Joining (T : Type 0) : Type 0 where
  throws blocks : Joining T
  joined : LogicIo T → Joining T

module _ {T : Type 0} where
  abbrev pub is_empty : List T → Bool
  is_empty [] = true
  is_empty (t ∷ ts) = false

  -- Whether `run` has returned, or will without a further handler.
  unfoldable pub returns : IoService T → Bool
  returns s = s.stopped || (is_empty s.handlers && not s.work)

  -- `LogicIo()`: `empty_work_` keeps the service up.
  unfoldable pub new_logic_io : LogicIo T
  new_logic_io = record {
    io_service = record { handlers = []; work = true; stopped = false };
    thread = false;
  }

  -- `Init`: to assign to a joinable thread ends the program.
  unfoldable pub init : LogicIo T → Option (LogicIo T)
  init l = if l.thread then none else some (record l { thread = true })

  unfoldable pub stop : LogicIo T → LogicIo T
  stop l = record l { io_service = record l.io_service { stopped = true } }

  -- `Join`.
  unfoldable pub join : LogicIo T → Joining T
  join l =
      if l.thread
      then (if returns l.io_service then joined (record l { thread = false }) else blocks)
      else throws

  -- `post` to the service that `get_io_service` gives.
  unfoldable pub post : LogicIo T → List T → LogicIo T
  post l ts = record l {
    io_service = record l.io_service { handlers = l.io_service.handlers ++ ts };
  }

  abbrev pub next_handler : LogicIo T → List T → Option (LogicIo T × T)
  next_handler l [] = none
  next_handler l (t ∷ ts) =
      some (record l { io_service = record l.io_service { handlers = ts } }, t)

  -- The handler that the thread calls next, if it is in `run` and there is one.
  unfoldable pub take_handler : LogicIo T → Option (LogicIo T × T)
  take_handler l =
      if l.thread && not l.io_service.stopped then next_handler l l.io_service.handlers else none

-- The service of `MasterIo` has no work of its own: an accept that is under way keeps it up.
pub record MasterIo : Type 0 where
  pub running : Bool
  pub stopped : Bool

unfoldable pub new_master_io : MasterIo
new_master_io = record { running = false; stopped = false }

-- `Run`: the state, and whether it returns.
unfoldable pub run_master : Bool → MasterIo → MasterIo × Bool
run_master accepting m =
    if m.stopped || not accepting
    then (record m { running = false }, true)
    else (record m { running = true }, false)

unfoldable pub stop_master : MasterIo → MasterIo
stop_master m = record m { stopped = true }
