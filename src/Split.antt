-- ===== src/Split.antt =====
-- The cutting of a string at separators: `SysPublicTool::split` of src/SysPublicTool.cpp.
use edge_frame.Prelude.{
  ℕ, zero, suc, Bool, true, false, if◌then◌else◌, List, [], ◌∷◌, Option, none, some, nat_beq,
  length, ◌>>=◌,
}
pub mod OnePass

-- The inner `for`: is the byte one of the separators?
unfoldable pub is_separator : List ℕ → ℕ → Bool
is_separator [] c = false
is_separator (x ∷ xs) c = let rest = is_separator xs c in if nat_beq c x then true else rest

-- A position in the string is the list of the bytes from it on. The first `while` moves `i` to
-- a byte that is no separator.
unfoldable pub skip : List ℕ → List ℕ → List ℕ
skip seperator [] = []
skip seperator (c ∷ cs) =
    let rest = skip seperator cs in if is_separator seperator c then rest else c ∷ cs

-- The second `while` moves `j` to the next separator: the bytes it passed, `s.substr(i, j - i)`.
unfoldable pub word : List ℕ → List ℕ → List ℕ
word seperator [] = []
word seperator (c ∷ cs) =
    let rest = word seperator cs in if is_separator seperator c then [] else c ∷ rest

-- The position `j` where it stops.
unfoldable pub after_word : List ℕ → List ℕ → List ℕ
after_word seperator [] = []
after_word seperator (c ∷ cs) =
    let rest = after_word seperator cs in if is_separator seperator c then c ∷ cs else rest

-- A piece is added to the result if `i != j`.
unfoldable pub push_word : List ℕ → List (List ℕ) → List (List ℕ)
push_word [] rest = rest
push_word (c ∷ cs) rest = (c ∷ cs) ∷ rest

-- The outer `while`, with a bound on its rounds; `none` is a loop that is not done by then.
unfoldable pub split_from : ℕ → List ℕ → List ℕ → Option (List (List ℕ))
split_from n seperator [] = some []
split_from zero seperator (c ∷ cs) = none
split_from (suc n) seperator (c ∷ cs) = do
  let s = skip seperator (c ∷ cs)
  rest ← split_from n seperator (after_word seperator s)
  some (push_word (word seperator s) rest)

unfoldable pub split : List ℕ → List ℕ → Option (List (List ℕ))
split s seperator = split_from (length s) seperator s
