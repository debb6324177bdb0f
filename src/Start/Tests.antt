-- ===== src/Start/Tests.antt =====
-- `--config c -d`.
use fighting_card.Base.{◌≡◌, ◌≢◌, ◌↔◌, Bool, true, false, List, [], ◌∷◌}
use fighting_card.Base.Text.{Text}
use fighting_card.Config.{ServerConfig}
use fighting_card.Start.{Opt, debug, config, create_daemon, init_log, serves, server_main}
use fighting_card.Start.Arguments.{server_main_starts}

abbrev config_path : Text
config_path = 99 ∷ []

abbrev arguments : List Opt
arguments = config config_path ∷ debug ∷ []

abbrev loaded : ServerConfig
loaded = record {
  log = record { name = []; path = []; level = []; flush = []; thread = 1 };
  attr = record { id = 0; ip = []; port = []; thread = 4 };
  sdk = record { url = []; appid = []; zone = 0; count = 0 };
}

abbrev load : Text → ServerConfig → Bool × ServerConfig
load file old = (true, loaded)

server_main_starts_example :
    (server_main load false loaded arguments ≡ serves (create_daemon ∷ init_log false ∷ []) loaded)
    ↔ ((true ≡ true) × (config_path ≢ []) × (true ≡ true) × (false ≡ false))
server_main_starts_example = server_main_starts load false loaded arguments
