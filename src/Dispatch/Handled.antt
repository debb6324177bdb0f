-- ===== src/Dispatch/Handled.antt =====
-- What a dispatched message becomes.
use fighting_card.Base.{
  ℕ, ◌+◌, ◌*◌, ◌^◌, ◌≡◌, ◌≢◌, ◌≤◌, ◌<◌, refl, ap, inl, inr, true, Option, none, some, List, [], ◌∷◌,
  arith, length, if◌then◌else◌, Bool-cases, Option-cases, All,
}
use fighting_card.Base.Text.{Text, text_eq}
use fighting_card.Base.Word.{u32}
use fighting_card.Base.Dict.{text_Eq, find, insert, find-insert_new, insert_new, insert_old}
use fighting_card.Buffer.{pipe_layout}
use fighting_card.Buffer.Access.{load-eq-some}
use fighting_card.Buffer.Pointer.{Pointer, indeterminate, null, offset, c_string_at, bytes_at}
use fighting_card.Buffer.Words.{of_le}
use fighting_card.Buffer.Memory.{Mem, read}
use fighting_card.Message.{Message, IsWire}
use fighting_card.UserBuffer
use fighting_card.UserBuffer.{UserBuffer}
use fighting_card.UserBuffer.RoundTrip.{Carries, decode-encode}
use fighting_card.PipeBuffer
use fighting_card.PipeBuffer.{PipeBuffer}
use fighting_card.PipeBuffer.RoundTrip.{decode-encode_oversize}
use fighting_card.PipeBuffer.Head.{ReadsId}
use fighting_card.Dispatch.{
  ErrorCode, ok, msg_not_register, reflection_protobuf_failed, protobuf_cast_failed, post_cast,
  process_created, PipeHead, Handler, Processor, add_handler, process, dispatch, is_set, pipe_head,
}

module _ {A P M T : Type 0} (h : Handler A P M T) (p : Processor A P M T) where
  -- A handler for a new name is found under that name, and the others as before.
  pub add_handler_lem :
      p.io_service ≡ true
      → find h.full_name p.handlers ≡ none
      → (q : Processor A P M T) × (add_handler h p ≡ some q)
        × (q.io_service ≡ true)
        × ((j : Text)
            → find j q.handlers ≡ (if text_eq h.full_name j then some h else find j p.handlers))
  unfolding add_handler
  add_handler_lem up free = (
    record p { handlers = (insert h.full_name h p.handlers).0 },
    rw (up, insert_new h.full_name h p.handlers free),
    up,
    λ j. find-insert_new h.full_name j h p.handlers free,
  )

  -- The assertion fails for a name that has a handler.
  add_handler_taken :
      (old : Handler A P M T) → find h.full_name p.handlers ≡ some old → add_handler h p ≡ none
  unfolding add_handler
  add_handler_taken old taken =
      rw (insert_old h.full_name h old p.handlers taken)
        (elim (Bool-cases p.io_service) [ inl e ↦ rw e | inr e ↦ rw e ])

module _ {S P M T : Type 0} (create : Text → Option P) (parse : List ℕ → P → P) where
  -- What becomes of a message: the call of the handler that is posted, or the code for what is
  -- missing, a handler, a type with its name, or the type that the handler is for.
  abbrev pub called : Handler S P M T → S → Option M → ErrorCode × List T
  called h user_session none = (protobuf_cast_failed, [])
  called h user_session (some real_msg) = (ok, h.func user_session real_msg ∷ [])

  abbrev pub parsed : Handler S P M T → List ℕ → S → Option P → ErrorCode × List T
  parsed h payload user_session none = (reflection_protobuf_failed, [])
  parsed h payload user_session (some blank) = called h user_session (h.cast (parse payload blank))

  abbrev pub handled : Option (Handler S P M T) → List ℕ → S → ErrorCode × List T
  handled none payload user_session = (msg_not_register, [])
  handled (some h) payload user_session = parsed h payload user_session (create h.full_name)

  process-called :
      (h : Handler S P M T) (user_session : S) (o : Option M)
      → post_cast create parse h user_session o ≡ called h user_session o
  process-called h user_session none = refl
  process-called h user_session (some real_msg) = refl

  process-parsed :
      (h : Handler S P M T) (payload : List ℕ) (user_session : S) (o : Option P)
      → process_created create parse h user_session payload o ≡ parsed h payload user_session o
  process-parsed h payload user_session none = refl
  process-parsed h payload user_session (some blank) =
      process-called h user_session (h.cast (parse payload blank))

  process-handled :
      (h : Handler S P M T) (payload : List ℕ) (user_session : S)
      → process create parse h user_session payload ≡ handled (some h) payload user_session
  unfolding process
  process-handled h payload user_session =
      process-parsed h payload user_session (create h.full_name)

  pub dispatch-Carries :
      (p : Processor S P M T) (b : UserBuffer) (user_session : S) (name : Text) (payload : List ℕ)
      → p.io_service ≡ true
      → length payload < 2 ^ 32
      → Carries b name payload
      → dispatch create parse p b user_session
        ≡ some (handled (find name p.handlers) payload user_session)
  unfolding dispatch
  dispatch-Carries p b user_session name payload up small c =
      rw (up, c.name_read)
        (elim (Option-cases (find name p.handlers)) [
          | inl e ↦ rw e
          | inr (h, e) ↦
              rw (e, same_size, c.data_read) (ap some (process-handled h payload user_session))
        ])
    where
      same_size : u32 b.msg_data_size ≡ b.msg_data_size
      same_size = omega (arith, c.size_read)

  -- A message that is encoded, decoded and dispatched makes `Dispatch` return `kOK` and post one
  -- call, of the handler of its type name with the message that is parsed from the bytes of the
  -- sender; without a handler, without the type or if the cast fails, the code for that is
  -- returned and nothing is posted.
  pub dispatch-encode :
      (p : Processor S P M T) (user_session : S) (msg : Message) (payload : List ℕ) (b : UserBuffer)
      → p.io_service ≡ true
      → IsWire msg payload
      → 1 ≤ length msg.type_name
      → length msg.type_name < 255
      → length msg.type_name + length payload ≤ 16380
      → (sent got : UserBuffer) × (UserBuffer.encode msg b ≡ some sent)
        × (UserBuffer.decode sent ≡ some (got, true))
        × (dispatch create parse p got user_session
            ≡ some (handled (find msg.type_name p.handlers) payload user_session))
  dispatch-encode p user_session msg payload b up w long short fits =
      let trip = decode-encode msg payload b w long short fits in
      (
        trip.0,
        trip.1,
        trip.2,
        trip.3,
        dispatch-Carries p trip.1 user_session msg.type_name payload up (omega arith) trip.4,
      )

read-set :
    (p : Pointer) (m : Mem) (t : Text) → c_string_at pipe_layout p m ≡ some t → is_set p ≡ true
unfolding c_string_at
read-set indeterminate m t e = refl
read-set null m t e = absurd (cc e)
read-set (offset n) m t e = refl

-- The ids that a head has: both, or none.
abbrev pub head_of : ℕ → Text → Text → PipeHead
head_of session_id [] user_id = record { session_id = session_id; appid = []; user_id = [] }
head_of session_id (c ∷ appid) [] = record { session_id = session_id; appid = []; user_id = [] }
head_of session_id (c ∷ appid) (d ∷ user_id) = record {
  session_id = session_id;
  appid = c ∷ appid;
  user_id = d ∷ user_id;
}

module _ (b : PipeBuffer) (session_id : ℕ) where
  ids_read :
      (appid user_id : Text)
      → bytes_at pipe_layout b.session_id 4 b.mem ≡ some (read 4 4 b.mem)
      → of_le (read 4 4 b.mem) ≡ session_id
      → ReadsId b.appid b.mem appid
      → ReadsId b.user_id b.mem user_id
      → pipe_head b ≡ some (head_of session_id appid user_id)
  unfolding pipe_head
  ids_read [] user_id word value a u = rw (word, value, a)
  ids_read (c ∷ appid) [] word value a u = rw (word, value, read-set b.appid b.mem (c ∷ appid) a, u)
  ids_read (c ∷ appid) (d ∷ user_id) word value a u = rw (
    word,
    value,
    read-set b.appid b.mem (c ∷ appid) a,
    read-set b.user_id b.mem (d ∷ user_id) u,
    a,
    u,
  )

  word_read :
      b.session_id ≡ offset 4 → bytes_at pipe_layout b.session_id 4 b.mem ≡ some (read 4 4 b.mem)
  unfolding bytes_at
  word_read at = rw at (load-eq-some pipe_layout 4 4 b.mem (omega arith))

-- The head that a handler is given for a frame that `Encode` has written: the session, and the
-- ids if neither of them is empty, else no id at all.
pub pipe_head-encode :
    (session_id : ℕ) (appid user_id : Text) (msg : Message) (payload : List ℕ) (b : PipeBuffer)
    → session_id < 2 ^ 32
    → length appid < 255
    → length user_id < 255
    → All (λ c. c ≢ 0) appid
    → All (λ c. c ≢ 0) user_id
    → 1 ≤ length msg.type_name
    → length msg.type_name < 255
    → length payload ≤ 500 * 1024
    → IsWire msg payload
    → (sent got : PipeBuffer) × (PipeBuffer.encode session_id appid user_id msg b ≡ some sent)
      × (PipeBuffer.decode sent ≡ some (got, true))
      × (pipe_head got ≡ some (head_of session_id appid user_id))
pipe_head-encode session_id appid user_id msg payload b word app_short user_short app_named
      user_named long short fits w =
    let trip =
      decode-encode_oversize session_id appid user_id msg payload b word app_short user_short
        app_named user_named long short fits w in
    (
      trip.0,
      trip.1,
      trip.2,
      trip.3,
      ids_read trip.1 session_id appid user_id (word_read trip.1 session_id trip.4.session_at)
          trip.4.session_read trip.4.app_read trip.4.user_read,
    )
