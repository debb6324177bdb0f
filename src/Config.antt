-- ===== src/Config.antt =====
-- server/server_config.cpp and client/client_config.cpp. pugixml, which is not in the repository,
-- is a parameter; a node may be null.
pub mod Names
pub mod Unchecked
pub mod Tests
use fighting_card.Base.{ℕ, ◌≡◌, Bool, true, false, Option, none, some, List, [], ◌∷◌, if◌then◌else◌}
use fighting_card.Base.Text.{Text}
use fighting_card.Config.Names

-- `xml_node`, with `child`, the test for null, `text().as_…()` and `attribute().as_…()`. A value
-- of `as_int` stands for the 32 bits of the `int`.
pub record Xml (N : Type 0) : Type 0 where
  pub load_file : Text → Option N
  pub is_null : N → Bool
  pub child : N → Text → N
  pub text_string : N → Text
  pub text_int : N → ℕ
  pub text_uint : N → ℕ
  pub attribute_string : N → Text → Text
  pub attribute_int : N → Text → ℕ

pub record Log : Type 0 where
  pub name : Text
  pub path : Text
  pub level : Text
  pub flush : Text
  pub thread : ℕ

-- The members of `Attr`, of which the client has the two numbers.
pub record Attr : Type 0 where
  pub id : ℕ
  pub ip : Text
  pub port : Text
  pub thread : ℕ

pub record Sdk : Type 0 where
  pub url : Text
  pub appid : Text
  pub zone : ℕ
  pub count : ℕ

pub record ServerConfig : Type 0 where
  pub log : Log
  pub attr : Attr
  pub sdk : Sdk

pub record ServerNode : Type 0 where
  pub ip : Text
  pub port : Text

pub record UsersInfo : Type 0 where
  pub appid : Text
  pub zone : ℕ
  pub uid_from : ℕ
  pub uid_to : ℕ

pub record ClientConfig : Type 0 where
  pub log : Log
  pub id : ℕ
  pub thread : ℕ
  pub users_info : UsersInfo
  pub queueserver : ServerNode
  pub gameserver : ServerNode

module _ {N : Type 0} (x : Xml N) where
  unfoldable pub read_log : N → Log
  read_log root =
      let log = x.child root Names.log in
      record {
        name = x.text_string (x.child log Names.name);
        path = x.text_string (x.child log Names.path);
        level = x.text_string (x.child log Names.level);
        flush = x.text_string (x.child log Names.flush);
        thread = x.text_int (x.child log Names.thread);
      }

  unfoldable pub read_server : N → ServerConfig
  read_server root =
      let sdk = x.child root Names.sdk in
      record {
        log = read_log root;
        attr = record {
          id = x.attribute_int root Names.id;
          ip = x.attribute_string root Names.ip;
          port = x.attribute_string root Names.port;
          thread = x.attribute_int root Names.thread;
        };
        sdk = record {
          url = x.text_string (x.child sdk Names.url);
          appid = x.text_string (x.child sdk Names.appid);
          zone = x.text_uint (x.child sdk Names.zone);
          count = x.text_uint (x.child sdk Names.count);
        };
      }

  unfoldable pub read_node : N → ServerNode
  read_node n = record {
    ip = x.attribute_string n Names.ip;
    port = x.attribute_string n Names.port;
  }

  unfoldable pub read_client : N → ClientConfig
  read_client root =
      let users_info = x.child root Names.users_info in
      record {
        log = read_log root;
        id = x.attribute_int root Names.id;
        thread = x.attribute_int root Names.thread;
        users_info = record {
          appid = x.text_string (x.child users_info Names.appid);
          zone = x.text_int (x.child users_info Names.zone);
          uid_from = x.text_int (x.child users_info Names.uid_from);
          uid_to = x.text_int (x.child users_info Names.uid_to);
        };
        gameserver = read_node (x.child root Names.gameserver);
        queueserver = read_node (x.child root Names.queueserver);
      }

  -- The root element, if the file is there and has one.
  abbrev pub root_of : Text → Option N → Option N
  root_of name none = none
  root_of name (some doc) =
      let root = x.child doc name in if x.is_null root then none else some root

  abbrev pub load_with : {A : Type 0} → (N → A) → A → Option N → Bool × A
  load_with read old none = (false, old)
  load_with read old (some root) = (true, read root)

  -- `ServerConfig::LoadConfig`.
  unfoldable pub load_server : Text → ServerConfig → Bool × ServerConfig
  load_server path old = load_with read_server old (root_of Names.gameserver (x.load_file path))

  -- `ClientConfig::LoadConfig`.
  unfoldable pub load_client : Text → ClientConfig → Bool × ClientConfig
  load_client path old = load_with read_client old (root_of Names.gameclient (x.load_file path))
