-- ===== src/Config/Unchecked.antt =====
-- What `LoadConfig` accepts.
use fighting_card.Base.{◌≡◌, refl, true, false, Option, none, some, arith}
use fighting_card.Base.Text.{Text}
use fighting_card.Config.{
  Xml, ServerConfig, ClientConfig, read_server, read_client, root_of, load_with, load_server,
  load_client,
}
use fighting_card.Config.Names
use fighting_card.IoServicePool.{Pool, init, get_io_service}
use fighting_card.IoServicePool.Turns.{get_io_service_fault}

module _ {N : Type 0} (x : Xml N) (path : Text) (doc : N) (old : ServerConfig) (p : Pool) where
  -- `thread` is not looked at: with a file that has no such attribute, or "0", the server starts
  -- a pool without services, and its first accept faults.
  pub no_thread_faults :
      x.load_file path ≡ some doc
      → x.is_null (x.child doc Names.gameserver) ≡ false
      → x.attribute_int (x.child doc Names.gameserver) Names.thread ≡ 0
      → p.io_services ≡ 0
      → (loaded : ServerConfig) × (load_server x path old ≡ (true, loaded))
        × (get_io_service (init loaded.attr.thread p) ≡ none)
  unfolding load_server read_server init
  no_thread_faults is_file has_root no_thread empty = (
    read_server x (x.child doc Names.gameserver),
    rw (is_file, has_root) refl,
    (get_io_service_fault (init (x.attribute_int (x.child doc Names.gameserver) Names.thread) p)).1
        (omega (arith, empty, no_thread)),
  )

module _ {N A : Type 0} (x : Xml N) (read : N → A) (old : A) where
  load_with-false :
      (root : Option N)
      → ((load_with x read old root).0 ≡ false)
      → load_with x read old root ≡ (false, old)
  load_with-false none h = refl
  load_with-false (some root) h = absurd (cc h)

-- A file that is refused leaves the configuration as it was.
pub load_client_refused :
    {N : Type 0} (x : Xml N) (path : Text) (old : ClientConfig)
    → (load_client x path old).0 ≡ false
    → load_client x path old ≡ (false, old)
unfolding load_client
load_client_refused x path old h =
    load_with-false x (read_client x) old (root_of x Names.gameclient (x.load_file path)) h
