-- ===== src/Main/Websocket/Payload.antt =====
-- main.go: what the reader makes of the payload of a message, bytes.TrimSpace of a copy in which a
-- space stands for every newline. White space is Unicode's, in UTF-8.
use mathlib.Core.List.{reverse}
use cbsignal_redis.Base.{ℕ, Bool, true, false, ◌&&◌, ◌||◌, [], ◌∷◌, leb, ◌==◌, if◌then◌else◌, Bytes}

-- bytes.Replace(payload, newline, space, -1)
unfoldable pub replace_newlines : Bytes → Bytes
replace_newlines [] = []
replace_newlines (x ∷ s) = (if x == 10 then 32 else x) ∷ replace_newlines s

-- The white space of one, two and three bytes.
abbrev pub is_space : ℕ → Bool
is_space x = x == 32 || (leb 9 x && leb x 13)

abbrev pub is_space_2 : ℕ → ℕ → Bool
is_space_2 x y = x == 194 && (y == 133 || y == 160)

abbrev pub is_space_3 : ℕ → ℕ → ℕ → Bool
is_space_3 x y z =
    (x == 225 && y == 154 && z == 128)
    || (x == 226 && y == 128 && ((leb 128 z && leb z 138) || z == 168 || z == 169 || z == 175))
    || (x == 226 && y == 129 && z == 159)
    || (x == 227 && y == 128 && z == 128)

-- A text without the white space at its head, of which the tests tell the first bytes.
unfoldable pub trim_by : (ℕ → Bool) → (ℕ → ℕ → Bool) → (ℕ → ℕ → ℕ → Bool) → Bytes → Bytes
trim_by one two three [] = []
trim_by one two three (x ∷ []) = if one x then [] else x ∷ []
trim_by one two three (x ∷ y ∷ []) = elim (one x) [
  | true ↦ trim_by one two three (y ∷ [])
  | false ↦ if two x y then [] else x ∷ y ∷ []
]
trim_by one two three (x ∷ y ∷ z ∷ s) = elim (one x) [
  | true ↦ trim_by one two three (y ∷ z ∷ s)
  | false ↦ elim (two x y) [
    | true ↦ trim_by one two three (z ∷ s)
    | false ↦ elim (three x y z) [ true ↦ trim_by one two three s | false ↦ x ∷ y ∷ z ∷ s ]
  ]
]

unfoldable pub trim_space : Bytes → Bytes
unfolding trim_by
trim_space s =
    let right = trim_by is_space (λ x y. is_space_2 y x) (λ x y z. is_space_3 z y x) (reverse s) in
    trim_by is_space is_space_2 is_space_3 (reverse right)

unfoldable pub clean : Bytes → Bytes
unfolding trim_space replace_newlines
clean payload = trim_space (replace_newlines payload)
