-- ===== src/HttpRequest/Posted.antt =====
-- What `PostJson` returns, and which calls of libcurl balance.
use fighting_card.Base.{
  ◌*◌, ◌<◌, ◌^◌, ◌≡◌, ◌∙◌, refl, sym, ap, false, none, some, List, [], ◌∷◌, ◌++◌, arith, length,
  take, take_all, append_assoc, append-nil, ◌==◌, All,
}
use fighting_card.Base.Text.{Text}
use fighting_card.Base.Word.{u64}
use fighting_card.HttpRequest.{
  Request, Chunk, Curl, global_init, easy_init, perform, easy_cleanup, global_cleanup, write_func,
  write_all, json_header, post_with, post_json,
}

-- The bytes at `ptr` are `size * nmemb` many.
abbrev pub IsWhole : Chunk → Type 0
IsWhole c = (length c.bytes ≡ c.size * c.nmemb) × (c.size * c.nmemb < 2 ^ 64)

abbrev pub all_bytes : List Chunk → Text
all_bytes [] = []
all_bytes (c ∷ cs) = c.bytes ++ all_bytes cs

write_all-bytes :
    (cs : List Chunk) (str : Text) → All IsWhole cs → write_all cs str ≡ str ++ all_bytes cs
unfolding write_all write_func
write_all-bytes [] str h = sym (append-nil str)
write_all-bytes (c ∷ cs) str h =
    ap (λ n. write_all cs (str ++ take n c.bytes)) size
    ∙ ap (λ t. write_all cs (str ++ t)) (take_all c.bytes)
    ∙ write_all-bytes cs (str ++ c.bytes) h.1
    ∙ append_assoc str c.bytes (all_bytes cs)
  where
    size : u64 (c.size * c.nmemb) ≡ length c.bytes
    size = omega (arith, h.0.0, h.0.1)

module _ {C : Type 0} (curl : Curl C) (url json_data data_back : Text) where
  abbrev request : Request
  request = record { header = json_header; url = url; post_fields = json_data }

  -- `PostJson` with a handle appends what the server answered to the data, in order, and returns
  -- whether the transfer succeeded; each of the calls that begin is ended.
  pub post_json-performs :
      (handle : C)
      → curl.global_init ≡ 0
      → curl.easy_init ≡ some handle
      → All IsWhole (curl.perform handle request).0
      → post_json curl url json_data data_back ≡ record {
        result = (curl.perform handle request).1 == 0;
        write_back_data = data_back ++ all_bytes (curl.perform handle request).0;
        calls = global_init ∷ easy_init ∷ perform ∷ easy_cleanup ∷ global_cleanup ∷ [];
      }
  unfolding post_json post_with
  post_json-performs handle up made whole =
      rw (up, made, write_all-bytes (curl.perform handle request).0 data_back whole) refl

  -- Without a handle nothing is written and the result is false, but `curl_global_init` has no
  -- `curl_global_cleanup`.
  pub post_json-no_handle :
      curl.global_init ≡ 0
      → curl.easy_init ≡ none
      → post_json curl url json_data data_back ≡ record {
        result = false;
        write_back_data = data_back;
        calls = global_init ∷ easy_init ∷ easy_cleanup ∷ [];
      }
  unfolding post_json post_with
  post_json-no_handle up no_handle = rw (up, no_handle) refl
