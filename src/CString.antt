-- ===== src/CString.antt =====
-- The C library's text functions, over lists of bytes.
pub mod Decimal
use Prim.Native.Char.{code}
use Prim.Native.String.{String}
use model_lib.Base.{
  ℕ, zero, suc, ◌+◌, ◌≤◌, ◌<◌, ◌≡◌, refl, ◌≢◌, Bool, true, false, ◌&&◌, Option, none, some, List,
  [], ◌∷◌, ◌++◌, append-nil, arith, leb, ltb, ◌==◌, if◌then◌else◌, length, drop, drop-nil, drop_all,
  le→leb, lt→ltb,
}

-- A string's characters, without the closing NUL.
abbrev pub Text : Type 0
Text = List ℕ

-- The contents of a `char` array. The bytes behind the end of the list are 0, so that an array
-- cleared by `memset` is `[]`.
abbrev pub Buf : Type 0
Buf = List ℕ

-- `MAX_SIZE`, the size of nearly every array.
abbrev pub max_size : ℕ
max_size = 128

-- A literal.
unfoldable pub text : String → Text
text String.[] = []
text (String.◌∷◌ c s) = code c ∷ text s

-- The string at the start of an array of `cap` bytes: `none` if no NUL stands in it, where
-- `strlen` and `%s` would read past the end.
unfoldable pub c_str : (cap : ℕ) → Buf → Option Text
c_str zero b = none
c_str (suc cap) [] = some []
c_str (suc cap) (zero ∷ b) = some []
c_str (suc cap) (suc c ∷ b) = elim (c_str cap b) [ none ↦ none | some t ↦ some (suc c ∷ t) ]

-- `memcpy(dst, src, strlen(src))` on an array of `cap` bytes: the NUL is not copied, and what
-- stood behind the copied bytes stays. `none` is a write past the end.
unfoldable pub copy_str : (cap : ℕ) → Buf → Text → Option Buf
copy_str cap dst src = if leb (length src) cap then some (src ++ drop (length src) dst) else none

-- `strcpy` and `sprintf(dst, "%s", src)`: the NUL is written too.
unfoldable pub put_str : (cap : ℕ) → Buf → Text → Option Buf
put_str cap dst src =
    if ltb (length src) cap then some (src ++ 0 ∷ drop (suc (length src)) dst) else none

-- `strcmp(a, b) == 0`
unfoldable pub str_eq : Text → Text → Bool
str_eq [] [] = true
str_eq [] (y ∷ b) = false
str_eq (x ∷ a) [] = false
str_eq (x ∷ a) (y ∷ b) = (x == y) && str_eq a b

-- `memcmp(a, b, MAX_SIZE) == 0`, the arrays being 0 behind their lists.
unfoldable pub mem_eq : Buf → Buf → Bool
mem_eq [] [] = true
mem_eq [] (y ∷ b) = (y == 0) && mem_eq [] b
mem_eq (x ∷ a) [] = (x == 0) && mem_eq a []
mem_eq (x ∷ a) (y ∷ b) = (x == y) && mem_eq a b

-- Spaces on the right up to `width`, as `%-10s` prints.
unfoldable pub pad_right : (width : ℕ) → Text → Text
pad_right zero t = t
pad_right (suc w) [] = 32 ∷ pad_right w []
pad_right (suc w) (c ∷ t) = c ∷ pad_right w t

-- No NUL among the characters, which every string satisfies.
abbrev pub IsClean : Text → Type 0
IsClean [] = Unit
IsClean (c ∷ t) = (c ≢ 0) × IsClean t

-- A string shorter than its array is read back whole.
pub c_str-clean : (cap : ℕ) (t : Text) → IsClean t → length t < cap → c_str cap t ≡ some t
unfolding c_str
c_str-clean zero t cl h = absurd (omega arith)
c_str-clean (suc cap) [] cl h = refl
c_str-clean (suc cap) (zero ∷ t) cl h = absurd (cl.0 refl)
c_str-clean (suc cap) (suc c ∷ t) cl h = rw (c_str-clean cap t cl.1 (omega arith))

-- On a cleared array the copy is the string itself.
pub copy_str-nil : (cap : ℕ) (t : Text) → length t ≤ cap → copy_str cap [] t ≡ some t
unfolding copy_str
copy_str-nil cap t h = rw (le→leb _ _ h, drop-nil (length t), append-nil)

pub str_eq_refl : (a : Text) → str_eq a a ≡ true
unfolding str_eq
str_eq_refl [] = refl
str_eq_refl (x ∷ a) = ground (arith, str_eq_refl a)

pub str_eq_sound : (a b : Text) → str_eq a b ≡ true → a ≡ b
unfolding str_eq
str_eq_sound [] [] h = refl
str_eq_sound [] (y ∷ b) h = absurd (cc)
str_eq_sound (x ∷ a) [] h = absurd (cc)
str_eq_sound (x ∷ a) (y ∷ b) h = ground (arith, str_eq_sound a b)

pub mem_eq_refl : (a : Buf) → mem_eq a a ≡ true
unfolding mem_eq
mem_eq_refl [] = refl
mem_eq_refl (x ∷ a) = ground (arith, mem_eq_refl a)

-- A string ends at its NUL, whatever stands behind it.
pub c_str-put :
    (cap : ℕ) (t : Text) (rest : Buf)
    → IsClean t
    → length t < cap
    → c_str cap (t ++ 0 ∷ rest) ≡ some t
unfolding c_str
c_str-put zero t rest cl h = absurd (omega arith)
c_str-put (suc cap) [] rest cl h = refl
c_str-put (suc cap) (zero ∷ t) rest cl h = absurd (cl.0 refl)
c_str-put (suc cap) (suc c ∷ t) rest cl h = rw (c_str-put cap t rest cl.1 (omega arith))

pub put_str-nil : (cap : ℕ) (t : Text) → length t < cap → put_str cap [] t ≡ some (t ++ 0 ∷ [])
unfolding put_str
put_str-nil cap t h = rw (lt→ltb _ _ h)

pub length-pad_right-le : (w : ℕ) (t : Text) → length (pad_right w t) ≤ w + length t
unfolding pad_right
length-pad_right-le zero t = omega arith
length-pad_right-le (suc w) [] = omega (arith, length-pad_right-le w [])
length-pad_right-le (suc w) (c ∷ t) = omega (arith, length-pad_right-le w t)
