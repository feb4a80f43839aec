-- ===== src/Client/Scan/Words.antt =====
-- A word that is typed is the word that `%s` stores.
use model_lib.Base.{ℕ, ◌<◌, ◌≡◌, false, true, List, [], ◌∷◌, ◌++◌, length}
use model_lib.CString.{Text, put_str-nil, max_size}
use model_lib.CString.Decimal.{is_space}
use model_lib.Client.{Client, ok}
use model_lib.Client.Scan.{got, skip_spaces, until_space, scan_word}
use model_lib.Client.Console.{scanf_word}

abbrev pub NoSpace : Text → Type 0
NoSpace [] = Unit
NoSpace (c ∷ t) = (is_space c ≡ false) × NoSpace t

-- At least one character, and none of them a space.
abbrev pub IsWord : Text → Type 0
IsWord [] = true ≡ false
IsWord (c ∷ t) = NoSpace (c ∷ t)

until_space-NoSpace :
    (t : Text) (c : ℕ) (rest : List ℕ)
    → NoSpace t
    → is_space c ≡ true
    → until_space (t ++ c ∷ rest) ≡ got t (c ∷ rest)
unfolding until_space
until_space-NoSpace [] c rest h e = rw e
until_space-NoSpace (x ∷ t) c rest h e = rw (h.0, until_space-NoSpace t c rest h.1 e)

word-NoSpace : (t : Text) → IsWord t → NoSpace t
word-NoSpace [] h = tt
word-NoSpace (c ∷ t) h = h

-- The word behind the spaces and its NUL are stored in a cleared array, and the space behind it is
-- left.
pub scanf_word-IsWord :
    (t : Text) (c : ℕ) (rest : List ℕ) (s : Client)
    → skip_spaces s.typed ≡ t ++ c ∷ rest
    → IsWord t
    → is_space c ≡ true
    → length t < max_size
    → scanf_word [] s ≡ ok (t ++ 0 ∷ []) (record s { typed = c ∷ rest })
unfolding scanf_word scan_word
scanf_word-IsWord t c rest s at h e fits =
    rw (at, until_space-NoSpace t c rest (word-NoSpace t h) e, put_str-nil max_size t fits)
