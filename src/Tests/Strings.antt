-- ===== src/Tests/Strings.antt =====
-- `split` of src/SysPublicTool.cpp at concrete strings.
use edge_frame.Prelude.{ℕ, List, [], ◌∷◌, ◌≡◌, refl, some}
use edge_frame.Split.{is_separator, skip, word, after_word, push_word, split_from, split}
use edge_frame.Split.OnePass.{split-pieces, pieces}

-- ";ab;;c;" and ";".
abbrev text : List ℕ
text = 59 ∷ 97 ∷ 98 ∷ 59 ∷ 59 ∷ 99 ∷ 59 ∷ []

abbrev semicolon : List ℕ
semicolon = 59 ∷ []

split-text : split text semicolon ≡ some ((97 ∷ 98 ∷ []) ∷ (99 ∷ []) ∷ [])
unfolding split split_from skip word after_word push_word is_separator
split-text = refl

split-pieces_example : split text semicolon ≡ some (pieces semicolon text [])
split-pieces_example = split-pieces text semicolon
