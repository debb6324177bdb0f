-- ===== src/Message/Samples.antt =====
-- Two messages of msg/game.proto, for tests: an empty `Ping`, and a `LoginReq` with uid "7".
use fighting_card.Base.{
  ℕ, refl, ◌≢◌, none, some, List, [], ◌∷◌, arith, leb, if◌then◌else◌, length, All,
}
use fighting_card.Base.Text.{Text}
use fighting_card.Message.{Message, IsWire}

abbrev pub of_payload : Text → List ℕ → Message
of_payload name payload = record {
  type_name = name;
  byte_size = length payload;
  serialize_to_array = λ n. if leb (length payload) n then some payload else none;
}

pub of_payload-IsWire :
    (name : Text) (payload : List ℕ)
    → All (λ c. c ≢ 0) name
    → IsWire (of_payload name payload) payload
of_payload-IsWire name payload named = record {
  sized = refl;
  serializes = λ n h. ground arith;
  named = named;
}

-- "game.Ping"
abbrev pub ping_name : Text
ping_name = 103 ∷ 97 ∷ 109 ∷ 101 ∷ 46 ∷ 80 ∷ 105 ∷ 110 ∷ 103 ∷ []

abbrev pub ping : Message
ping = of_payload ping_name []

pub ping-IsWire : IsWire ping []
ping-IsWire = of_payload-IsWire ping_name [] (omega arith)

-- "game.LoginReq"
abbrev pub login_name : Text
login_name = 103 ∷ 97 ∷ 109 ∷ 101 ∷ 46 ∷ 76 ∷ 111 ∷ 103 ∷ 105 ∷ 110 ∷ 82 ∷ 101 ∷ 113 ∷ []

abbrev pub login_payload : List ℕ
login_payload = 8 ∷ 0 ∷ 18 ∷ 1 ∷ 55 ∷ []

abbrev pub login : Message
login = of_payload login_name login_payload

pub login-IsWire : IsWire login login_payload
login-IsWire = of_payload-IsWire login_name login_payload (omega arith)
