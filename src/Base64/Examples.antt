-- ===== src/Base64/Examples.antt =====
-- The codec of src/base64.cpp at a concrete input.
use mini_dynamo.Base.{ℕ, List, [], ◌∷◌}

-- A zero byte, a bar, a newline and the largest byte.
abbrev raw : List ℕ
raw = 0 ∷ 124 ∷ 10 ∷ 255 ∷ []
