-- ===== src/Dispatch/Created.antt =====
-- When a handler is not reached.
use fighting_card.Base.{
  ◌≢◌, true, false, All, ◌==◌, arith, ℕ, ◌≡◌, ◌⊎◌, ◌↔◌, refl, inl, inr, Option, none, some, List,
  [], ◌∷◌, Option-cases,
}
use fighting_card.Base.Text.{Text, text_eq_iff}
use fighting_card.Dispatch.{
  ok, reflection_protobuf_failed, protobuf_cast_failed, Handler, create_message, process,
  proto_buf_reflection, before_nul, msg_name_equal,
}

module _ {D Q A P M T : Type 0} (find_type : Text → Option D) (get_prototype : D → Option Q)
    (new_message : Q → P) (parse : List ℕ → P → P) (h : Handler A P M T) (a : A)
    (bytes : List ℕ) where
  abbrev create : Text → Option P
  create = create_message find_type get_prototype new_message

  -- `Process` posts the handler, once, if protobuf has a descriptor and a prototype for its type
  -- and the parsed message casts to it; otherwise it posts nothing and returns the code of what
  -- failed.
  pub process-cases :
      ((create h.full_name ≡ none)
        × (process create parse h a bytes ≡ (reflection_protobuf_failed, [])))
      ⊎ ((msg : P) × (create h.full_name ≡ some msg)
          × (((h.cast (parse bytes msg) ≡ none)
                × (process create parse h a bytes ≡ (protobuf_cast_failed, [])))
              ⊎ ((real_msg : M) × (h.cast (parse bytes msg) ≡ some real_msg)
                  × (process create parse h a bytes ≡ (ok, h.func a real_msg ∷ [])))))
  unfolding process
  process-cases = elim (Option-cases (create h.full_name)) [
    | inl e ↦ inl (e, rw e refl)
    | inr (msg, e) ↦ inr (
      msg,
      e,
      elim (Option-cases (h.cast (parse bytes msg))) [
        | inl f ↦ inl (f, rw (e, f) refl)
        | inr (real_msg, f) ↦ inr (real_msg, f, rw (e, f) refl)
      ],
    )
  ]

  -- No message is created exactly if the descriptor or its prototype is missing.
  pub create_message-none :
      (name : Text)
      → (create name ≡ none) ↔ (
          (find_type name ≡ none)
          ⊎ ((d : D) × (find_type name ≡ some d) × (get_prototype d ≡ none)))
  unfolding create_message
  create_message-none name = elim (Option-cases (find_type name)) [
    | inl e ↦ rw e (λ f. inl refl, λ f. refl)
    | inr (d, e) ↦ elim (Option-cases (get_prototype d)) [
      | inl f ↦ rw (e, f) (λ g. inr (d, refl, f), λ g. refl)
      | inr (q, f) ↦ rw (e, f) (λ g. absurd (cc g), never d q f)
    ]
  ]
    where
      never :
          (d : D) (q : Q)
          → get_prototype d ≡ some q
          → (Path (Option D) (some d) none)
            ⊎ ((c : D) × (Path (Option D) (some d) (some c)) × (get_prototype c ≡ none))
          → Path (Option P) (some (new_message q)) none
      never d q f (inl e) = absurd (cc e)
      never d q f (inr (c, same, e)) = absurd (cc (same, e, f))

module _ {P A M T : Type 0} (create : Text → Option P) (parse : List ℕ → P → P)
    (h : Handler A P M T) (a : A) (bytes : List ℕ) where
  abbrev handler_tasks : Option M → List T
  handler_tasks none = []
  handler_tasks (some real_msg) = h.func a real_msg ∷ []

  -- `Process` posts the handler for what `ProtoBufReflection` gives for the same name and bytes.
  pub process-proto_buf_reflection :
      (process create parse h a bytes).1
      ≡ handler_tasks (proto_buf_reflection create parse h.cast h.full_name bytes)
  unfolding process proto_buf_reflection
  process-proto_buf_reflection = elim (Option-cases (create h.full_name)) [
    | inl e ↦ rw e refl
    | inr (msg, e) ↦ elim (Option-cases (h.cast (parse bytes msg))) [
      | inl f ↦ rw (e, f) refl
      | inr (real_msg, f) ↦ rw (e, f) refl
    ]
  ]

-- On names without a NUL the comparison is that of the names.
before_nul-named : (t : Text) → All (λ c. c ≢ 0) t → before_nul t ≡ t
before_nul-named [] h = refl
before_nul-named (c ∷ t) h = rw (other, before_nul-named t h.1) refl
  where
    other : (c == 0) ≡ false
    other = ground (arith, h.0)

pub msg_name_equal_iff :
    (s t : Text) → All (λ c. c ≢ 0) s → All (λ c. c ≢ 0) t → (msg_name_equal s t ≡ true) ↔ (s ≡ t)
unfolding msg_name_equal
msg_name_equal_iff s t h g = rw (before_nul-named s h, before_nul-named t g) (text_eq_iff s t)
