-- ===== src/Message.antt =====
-- What the sources call of `google::protobuf::Message`, which is not theirs: an object with the
-- three methods that encoding uses, and what the protobuf manual says of them.
pub mod Tail
pub mod Samples
use fighting_card.Base.{
  ℕ, ◌+◌, ◌≤◌, ◌≡◌, ◌≢◌, Option, none, some, List, [], ◌∷◌, ◌++◌, length, All, arith,
}
use fighting_card.Base.Text.{Text}
use fighting_card.Buffer.{Layout, store}
use fighting_card.Buffer.Access.{store-eq-some}
use fighting_card.Buffer.Memory.{Mem, write}

-- `GetTypeName()`, `ByteSize()`, and the bytes that `SerializeToArray` writes when it is given
-- room for `n`; `none` is its `false`, with nothing written.
pub record Message : Type 0 where
  pub type_name : Text
  pub byte_size : ℕ
  pub serialize_to_array : ℕ → Option (List ℕ)

-- `payload` is the wire form of `m`: `ByteSize()` is its length, and a `SerializeToArray` that is
-- given that many bytes or more writes it. A type name has no NUL.
pub record IsWire (m : Message) (payload : List ℕ) : Type 0 where
  pub sized : length payload ≡ m.byte_size
  pub serializes : (n : ℕ) → m.byte_size ≤ n → m.serialize_to_array n ≡ some payload
  pub named : All (λ c. c ≢ 0) m.type_name

-- The bytes that `c_str()` points to.
abbrev pub c_str : Text → List ℕ
c_str t = t ++ 0 ∷ []

-- A call of `SerializeToArray` on a pointer into a buffer.
unfoldable pub serialize : Layout → Message → ℕ → ℕ → Mem → Option Mem
serialize l msg off n m = elim (msg.serialize_to_array n) [
  | none ↦ some m
  | some bytes ↦ store l off bytes m
]

pub serialize-eq-some :
    (l : Layout) (msg : Message) (payload : List ℕ) (off n : ℕ) (m : Mem)
    → IsWire msg payload
    → length payload ≤ n
    → off + length payload ≤ l.max_size
    → serialize l msg off n m ≡ some (write off payload m)
unfolding serialize
serialize-eq-some l msg payload off n m w room fits =
    rw (w.serializes n (omega (arith, w.sized)), serialize) (store-eq-some l off payload m fits)
