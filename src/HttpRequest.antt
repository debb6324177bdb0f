-- ===== src/HttpRequest.antt =====
-- common/http_request.cpp: `PostJson`. libcurl is a parameter; the calls that must balance are
-- kept in order.
pub mod Posted
use fighting_card.Base.{
  ℕ, ◌*◌, Bool, true, false, Option, none, some, List, [], ◌∷◌, ◌++◌, take, ◌==◌, if◌then◌else◌,
}
use fighting_card.Base.Text.{Text}
use fighting_card.Base.Word.{u64}

-- What the handle is told: `POSTFIELDSIZE` is the length, so the data may have zeros.
pub record Request : Type 0 where
  pub header : Text
  pub url : Text
  pub post_fields : Text

-- A call of the write function: `size`, `nmemb`, and the bytes at `ptr`.
pub record Chunk : Type 0 where
  pub size : ℕ
  pub nmemb : ℕ
  pub bytes : Text

-- `curl_global_init`, `curl_easy_init`, and what `curl_easy_perform` does: the calls of the write
-- function, as long as each takes all that it is given, and the code.
pub record Curl (C : Type 0) : Type 0 where
  pub global_init : ℕ
  pub easy_init : Option C
  pub perform : C → Request → List Chunk × ℕ

pub data Call : Type 0 where
  global_init easy_init perform easy_cleanup global_cleanup : Call

-- `WriteFunc`: the string, and the number that it returns.
unfoldable pub write_func : Chunk → Text → Text × ℕ
write_func c str = let n = u64 (c.size * c.nmemb) in (str ++ take n c.bytes, n)

unfoldable pub write_all : List Chunk → Text → Text
write_all [] str = str
write_all (c ∷ cs) str = write_all cs (write_func c str).0

-- "Content-Type: application/json".
abbrev pub json_header : Text
json_header =
    67 ∷ 111 ∷ 110 ∷ 116 ∷ 101 ∷ 110 ∷ 116 ∷ 45 ∷ 84 ∷ 121 ∷ 112 ∷ 101 ∷ 58 ∷ 32 ∷ 97 ∷ 112 ∷ 112
    ∷ 108 ∷ 105 ∷ 99 ∷ 97 ∷ 116 ∷ 105 ∷ 111 ∷ 110 ∷ 47 ∷ 106 ∷ 115 ∷ 111 ∷ 110 ∷ []

-- The result, the data written back, and the calls.
pub record Outcome : Type 0 where
  pub result : Bool
  pub write_back_data : Text
  pub calls : List Call

module _ {C : Type 0} (curl : Curl C) where
  -- From the handle on.
  unfoldable pub post_with : Text → Text → Text → Option C → Outcome
  post_with url json_data data_back none = record {
    result = false;
    write_back_data = data_back;
    calls = global_init ∷ easy_init ∷ easy_cleanup ∷ [];
  }
  post_with url json_data data_back (some handle) =
      let request : Request = record { header = json_header; url = url; post_fields = json_data } in
      let done = curl.perform handle request in
      record {
        result = done.1 == 0;
        write_back_data = write_all done.0 data_back;
        calls = global_init ∷ easy_init ∷ perform ∷ easy_cleanup ∷ global_cleanup ∷ [];
      }

  -- `PostJson`.
  unfoldable pub post_json : Text → Text → Text → Outcome
  post_json url json_data data_back =
      if curl.global_init == 0
      then post_with url json_data data_back curl.easy_init
      else record { result = false; write_back_data = data_back; calls = global_init ∷ [] }
