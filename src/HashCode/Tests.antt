-- ===== src/HashCode/Tests.antt =====
-- "ab".
use fighting_card.Base.{◌≡◌, some, [], ◌∷◌, arith}
use fighting_card.HashCode.{hash_code}
use fighting_card.HashCode.Horner.{hash_code-java_sum}

hash_code-java_sum_example : hash_code (97 ∷ 98 ∷ []) 1000 ≡ some 105
hash_code-java_sum_example =
    hash_code-java_sum (97 ∷ 98 ∷ []) 1000 (omega arith) (omega arith) (omega arith)
