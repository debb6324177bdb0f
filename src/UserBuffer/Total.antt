-- ===== src/UserBuffer/Total.antt =====
-- `decode` on any bytes that a peer may send.
use fighting_card.Base.{
  ◌+◌, ◌-◌, ◌^◌, ◌≤◌, ◌<◌, ◌≡◌, ◌↔◌, Bool, true, false, some, arith, refl, ltb, ◌==◌, lt→ltb,
  le→ltb-false, ◌∙◌, ap, Bool-cases, inl, inr, if◌then◌else◌,
}
use fighting_card.Base.Word.{u64}
use fighting_card.Buffer.Pointer.{offset}
use fighting_card.Buffer.{user_layout, load_byte, get_body_size}
use fighting_card.Buffer.Access.{load_byte-eq-some}
use fighting_card.Buffer.Memory.{IsBytes}
use fighting_card.UserBuffer.{UserBuffer, decode}

-- What `decode` tests: a name size of 2 or more, and a NUL as the name's last byte.
abbrev pub Accepts : UserBuffer → Type 0
Accepts b = (2 ≤ b.mem 2) × (b.mem (2 + b.mem 2) ≡ 0)

-- The buffer after an accepting `decode`.
abbrev pub found : UserBuffer → UserBuffer
found b =
    let data_size = u64 (get_body_size user_layout b.mem + 2 ^ 64 - 1 - b.mem 2 - 4) in
    record b {
      msg_name = offset 3;
      msg_data = offset (3 + b.mem 2);
      msg_data_size = data_size;
      check_sum = offset (u64 (3 + b.mem 2 + data_size));
    }

module _ (b : UserBuffer) (h : IsBytes b.mem) where
  count_read : load_byte user_layout 2 b.mem ≡ some (b.mem 2)
  count_read = load_byte-eq-some user_layout 2 b.mem (omega arith)

  last_read : load_byte user_layout (3 + b.mem 2 - 1) b.mem ≡ some (b.mem (2 + b.mem 2))
  last_read =
      load_byte-eq-some user_layout (3 + b.mem 2 - 1) b.mem (omega (arith, h 2))
      ∙ ap (λ i. some (b.mem i)) (omega arith)

  pub decode_short : b.mem 2 < 2 → decode b ≡ some (b, false)
  unfolding decode
  decode_short few = rw (count_read, lt→ltb (b.mem 2) 2 few)

  pub decode_long :
      2 ≤ b.mem 2
      → decode b ≡ (
          if b.mem (2 + b.mem 2) == 0
          then some (found b, true)
          else some (record b { msg_name = offset 3 }, false))
  unfolding decode
  decode_long many = rw (count_read, le→ltb-false (b.mem 2) 2 many, last_read)

  -- On any bytes `decode` reads inside the array, leaves them alone, and accepts exactly the
  -- buffers that pass the two tests.
  pub decode_total :
      (got : UserBuffer) × (ok : Bool) × (decode b ≡ some (got, ok))
      × ((ok ≡ true) ↔ Accepts b)
      × (got.mem ≡ b.mem)
  decode_total = elim (Bool-cases (ltb (b.mem 2) 2)) [
    | inl few ↦ (b, false, decode_short (ground arith), (λ e. cc, λ a. ground arith), refl)
    | inr many ↦ elim (Bool-cases (b.mem (2 + b.mem 2) == 0)) [
      | inl nul ↦ (
        found b,
        true,
        rw (decode_long (ground arith), nul),
        (λ e. ground arith, λ a. refl),
        refl,
      )
      | inr other ↦ (
        record b { msg_name = offset 3 },
        false,
        rw (decode_long (ground arith), other),
        (λ e. cc, λ a. ground arith),
        refl,
      )
    ]
  ]

  -- When a frame announces fewer bytes than its own name and check sum take, `decode` still
  -- accepts it, and the size of its data wraps around to nearly 2 ^ 64.
  pub decode_size_wraps :
      Accepts b
      → get_body_size user_layout b.mem < b.mem 2 + 5
      → (got : UserBuffer) × (decode b ≡ some (got, true))
        × (got.msg_data_size + (b.mem 2 + 5) ≡ 2 ^ 64 + get_body_size user_layout b.mem)
  decode_size_wraps a short = (found b, rw (decode_long a.0, a.1), omega (arith, h 2))
