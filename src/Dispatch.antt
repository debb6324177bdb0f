-- ===== src/Dispatch.antt =====
-- common/user_processor.h and common/pipe_processor.h: the tables of message handlers. The two
-- `Process`es and the two `AddHandler`s have the same text; `A` is what the handler is given
-- beside the message: the session, with the head of the frame for a pipe.
--
-- `create` is `CreateMessage`, `parse` is `ParseFromArray`, which changes its message and whose
-- result the code does not look at, and a handler has the `dynamic_pointer_cast` to its type.
pub mod Handled
pub mod Created
pub mod Heads
pub mod Tests
use fighting_card.Base.{
  ℕ, Bool, true, false, Option, none, some, List, [], ◌∷◌, ◌&&◌, ◌==◌, if◌then◌else◌, ◌>>=◌,
}
use fighting_card.Base.Text.{Text, text_eq}
use fighting_card.Base.Word.{u32}
use fighting_card.Base.Dict.{Dict, text_Eq, find, insert}
use fighting_card.Buffer.{user_layout, pipe_layout}
use fighting_card.Buffer.Pointer.{Pointer, indeterminate, null, offset, c_string_at, bytes_at}
use fighting_card.Buffer.Words.{of_le}
use fighting_card.UserBuffer.{UserBuffer}
use fighting_card.PipeBuffer.{PipeBuffer}

pub data ErrorCode : Type 0 where
  ok msg_not_register reflection_protobuf_failed protobuf_cast_failed : ErrorCode

-- common/pipe_head.h.
pub record PipeHead : Type 0 where
  pub session_id : ℕ
  pub appid : Text
  pub user_id : Text

-- `UserHandler` and `PipeHandler`; `T` is what is posted to the `io_service`.
pub record Handler (A P M T : Type 0) : Type 0 where
  pub full_name : Text
  pub cast : P → Option M
  pub func : A → M → T

pub record Processor (A P M T : Type 0) : Type 0 where
  pub io_service : Bool
  pub handlers : Dict Text (Handler A P M T)

-- `CreateMessage` of common/utility.cpp, given protobuf's pool, factory and `New`.
module _ {D M P : Type 0} (find_type : Text → Option D) (get_prototype : D → Option M)
    (new_message : M → P) where
  unfoldable pub create_message : Text → Option P
  create_message type_name = do
    descriptor ← find_type type_name
    prototype ← get_prototype descriptor
    some (new_message prototype)

module _ {A P M T : Type 0} where
  unfoldable pub no_handlers : Processor A P M T
  no_handlers = record { io_service = false; handlers = [] }

  unfoldable pub set_io_service : Processor A P M T → Processor A P M T
  set_io_service p = record p { io_service = true }

  -- `AddHandler`; an assertion that fails is `none`.
  unfoldable pub add_handler : Handler A P M T → Processor A P M T → Option (Processor A P M T)
  add_handler h p =
      let res = insert h.full_name h p.handlers in
      if p.io_service && res.1 then some (record p { handlers = res.0 }) else none

module _ {A P M T : Type 0} (create : Text → Option P) (parse : List ℕ → P → P) where
  abbrev pub post_cast : Handler A P M T → A → Option M → ErrorCode × List T
  post_cast h a none = (protobuf_cast_failed, [])
  post_cast h a (some real_msg) = (ok, h.func a real_msg ∷ [])

  abbrev pub process_created : Handler A P M T → A → List ℕ → Option P → ErrorCode × List T
  process_created h a bytes none = (reflection_protobuf_failed, [])
  process_created h a bytes (some msg) = post_cast h a (h.cast (parse bytes msg))

  -- `Process`: the code it returns, and what it posts.
  unfoldable pub process : Handler A P M T → A → List ℕ → ErrorCode × List T
  process h a bytes = process_created h a bytes (create h.full_name)

-- `ProtoBufReflection` and `MsgNameEqual` of common/utility.h; the latter compares with `strcmp`.
unfoldable pub proto_buf_reflection :
    {P M : Type 0}
    → (Text → Option P)
    → (List ℕ → P → P)
    → (P → Option M)
    → Text
    → List ℕ
    → Option M
proto_buf_reflection create parse cast type_name bytes = do
  proto_msg ← create type_name
  cast (parse bytes proto_msg)

abbrev pub before_nul : Text → Text
before_nul [] = []
before_nul (c ∷ t) = let rest = before_nul t in if c == 0 then [] else c ∷ rest

unfoldable pub msg_name_equal : Text → Text → Bool
msg_name_equal msg_name full_name = text_eq (before_nul msg_name) (before_nul full_name)

module _ {S P M T : Type 0} (create : Text → Option P) (parse : List ℕ → P → P) where
  abbrev pub dispatch_found :
      UserBuffer → S → Option (Handler S P M T) → Option (ErrorCode × List T)
  dispatch_found b user_session none = some (msg_not_register, [])
  dispatch_found b user_session (some h) = do
    bytes ← bytes_at user_layout b.msg_data (u32 b.msg_data_size) b.mem
    some (process create parse h user_session bytes)

  -- `UserProcessor::Dispatch`. Reading past the array is a fault.
  unfoldable pub dispatch : Processor S P M T → UserBuffer → S → Option (ErrorCode × List T)
  dispatch p b user_session =
      if p.io_service
      then (do
        msg_name ← c_string_at user_layout b.msg_name b.mem
        dispatch_found b user_session (find msg_name p.handlers))
      else none

abbrev pub is_set : Pointer → Bool
is_set null = false
is_set indeterminate = true
is_set (offset n) = true

-- The two ids are taken only when both are there.
unfoldable pub pipe_head : PipeBuffer → Option PipeHead
pipe_head b = do
  word ← bytes_at pipe_layout b.session_id 4 b.mem
  if is_set b.appid && is_set b.user_id
      then (do
        appid ← c_string_at pipe_layout b.appid b.mem
        user_id ← c_string_at pipe_layout b.user_id b.mem
        some (record { session_id = of_le word; appid = appid; user_id = user_id }))
      else some (record { session_id = of_le word; appid = []; user_id = [] })

module _ {S P M T : Type 0} (create : Text → Option P) (parse : List ℕ → P → P) where
  abbrev pub dispatch_pipe_found :
      PipeBuffer → S → Option (Handler (S × PipeHead) P M T) → Option (ErrorCode × List T)
  dispatch_pipe_found b pipe_session none = some (msg_not_register, [])
  dispatch_pipe_found b pipe_session (some h) = do
    head ← pipe_head b
    bytes ← bytes_at pipe_layout b.msg_data (u32 b.msg_data_size) b.mem
    some (process create parse h (pipe_session, head) bytes)

  -- `PipeProcessor::Dispatch`.
  unfoldable pub dispatch_pipe :
      Processor (S × PipeHead) P M T → PipeBuffer → S → Option (ErrorCode × List T)
  dispatch_pipe p b pipe_session =
      if p.io_service
      then (do
        msg_name ← c_string_at pipe_layout b.msg_name b.mem
        dispatch_pipe_found b pipe_session (find msg_name p.handlers))
      else none
