-- ===== src/Client/Scan.antt =====
-- What `scanf` of `%d` and of `%s` takes from the keys that were typed.
pub mod Words
use model_lib.Base.{
  ℕ, Bool, true, false, ◌||◌, Option, none, some, List, [], ◌∷◌, ◌==◌, if◌then◌else◌, ℤ,
}
use model_lib.CString.Decimal.{is_space, is_digit, signed_value}

-- A value and the keys left, or not enough keys so far. `broken` is a write outside an array.
pub data Read (A : Type 0) : Type 0 where
  got : A → List ℕ → Read A
  unfinished broken : Read A

-- A key in front of what was read.
abbrev pub prefix : ℕ → Read (List ℕ) → Read (List ℕ)
prefix c (got t rest) = got (c ∷ t) rest
prefix c unfinished = unfinished
prefix c broken = broken

unfoldable pub skip_spaces : List ℕ → List ℕ
skip_spaces [] = []
skip_spaces (c ∷ s) = let rest = skip_spaces s in if is_space c then rest else c ∷ s

-- The characters up to the next space, which stays.
unfoldable pub until_space : List ℕ → Read (List ℕ)
until_space [] = unfinished
until_space (c ∷ s) =
    let rest = until_space s in if is_space c then got [] (c ∷ s) else prefix c rest

-- The characters that `%s` stores.
unfoldable pub scan_word : List ℕ → Read (List ℕ)
unfolding skip_spaces until_space
scan_word s = until_space (skip_spaces s)

-- The digits up to the next other character, which stays.
unfoldable pub until_other : List ℕ → Read (List ℕ)
until_other [] = unfinished
until_other (c ∷ s) =
    let rest = until_other s in if is_digit c then prefix c rest else got [] (c ∷ s)

-- Without a digit nothing is converted.
abbrev pub to_int : (sign : List ℕ → List ℕ) → Read (List ℕ) → Read (Option ℤ)
to_int sign (got [] rest) = got none rest
to_int sign (got (c ∷ t) rest) = got (some (signed_value (sign (c ∷ t)))) rest
to_int sign unfinished = unfinished
to_int sign broken = broken

abbrev pub scan_sign : List ℕ → Read (Option ℤ)
scan_sign [] = unfinished
scan_sign (c ∷ s) =
    if (c == 45) || (c == 43)
    then to_int (λ t. c ∷ t) (until_other s)
    else to_int (λ t. t) (until_other (c ∷ s))

-- The number that `%d` stores, for values that an `int` can hold; none when it converts nothing and
-- leaves the variable alone.
unfoldable pub scan_int : List ℕ → Read (Option ℤ)
unfolding until_other skip_spaces
scan_int s = scan_sign (skip_spaces s)
