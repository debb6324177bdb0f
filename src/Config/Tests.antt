-- ===== src/Config/Tests.antt =====
-- A document that has nothing but its root element.
use fighting_card.Base.{◌≡◌, refl, Bool, true, false, none, some, []}
use fighting_card.Base.Text.{Text}
use fighting_card.Config.{Xml, ServerConfig, load_server}
use fighting_card.Config.Unchecked.{no_thread_faults}
use fighting_card.IoServicePool.{Pool, init, get_io_service}

data Node : Type 0 where
  document root nothing : Node

abbrev child : Node → Text → Node
child document name = root
child root name = nothing
child nothing name = nothing

abbrev is_null : Node → Bool
is_null document = false
is_null root = false
is_null nothing = true

abbrev bare : Xml Node
bare = record {
  load_file = λ path. some document;
  is_null = is_null;
  child = child;
  text_string = λ n. [];
  text_int = λ n. 0;
  text_uint = λ n. 0;
  attribute_string = λ n name. [];
  attribute_int = λ n name. 0;
}

abbrev old : ServerConfig
old = record {
  log = record { name = []; path = []; level = []; flush = []; thread = 1 };
  attr = record { id = 0; ip = []; port = []; thread = 4 };
  sdk = record { url = []; appid = []; zone = 0; count = 0 };
}

abbrev empty_pool : Pool
empty_pool = record { io_services = 0; works = []; next_io_service = 0; stopped = [] }

no_thread_faults_example :
    (loaded : ServerConfig) × (load_server bare [] old ≡ (true, loaded))
    × (get_io_service (init loaded.attr.thread empty_pool) ≡ none)
no_thread_faults_example = no_thread_faults bare [] document old empty_pool refl refl refl refl
