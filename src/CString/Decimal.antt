-- ===== src/CString/Decimal.antt =====
-- `%d` and `atoi`, and that the second undoes the first.
use model_lib.Base.{
  ℕ, zero, suc, ◌+◌, ◌-◌, ◌*◌, ◌/◌, ◌%◌, ◌<◌, ◌≡◌, refl, Bool, ◌&&◌, ◌||◌, true, false, List, [],
  ◌∷◌, ◌++◌, arith, leb, ltb, ◌==◌, if◌then◌else◌, ℤ, pos, negsuc, ap, ◌∙◌, Bool-cases, inl, inr,
  length, length-append, ◌^◌, ◌≤◌,
}
use native.Mathlib.Nat.{pow-suc}

-- The decimal digits, on fuel: `n + 1` rounds are enough.
unfoldable pub show_fuel : ℕ → ℕ → List ℕ
show_fuel zero n = []
show_fuel (suc f) n =
    let rest = show_fuel f (n / 10) ++ (48 + n % 10) ∷ [] in
    if ltb n 10 then (48 + n) ∷ [] else rest

unfoldable pub show_nat : ℕ → List ℕ
unfolding show_fuel
show_nat n = show_fuel (suc n) n

-- `sprintf(buf, "%d", z)`
unfoldable pub show_int : ℤ → List ℕ
show_int (pos n) = show_nat n
show_int (negsuc n) = 45 ∷ show_nat (suc n)

abbrev pub is_digit : ℕ → Bool
is_digit c = leb 48 c && leb c 57

abbrev pub is_space : ℕ → Bool
is_space c = (c == 32) || (leb 9 c && leb c 13)

unfoldable pub digits_value : ℕ → List ℕ → ℕ
digits_value acc [] = acc
digits_value acc (c ∷ s) =
    let rest = digits_value (acc * 10 + (c - 48)) s in if is_digit c then rest else acc

abbrev pub negate : ℕ → ℤ
negate zero = pos 0
negate (suc n) = negsuc n

-- The sign and the digits, behind the spaces.
unfoldable pub signed_value : List ℕ → ℤ
unfolding digits_value
signed_value [] = pos 0
signed_value (c ∷ s) =
    if c == 45
    then negate (digits_value 0 s)
    else if c == 43
    then pos (digits_value 0 s)
    else pos (digits_value 0 (c ∷ s))

-- `atoi`, for values that an `int` can hold.
unfoldable pub atoi : List ℕ → ℤ
unfolding signed_value
atoi [] = pos 0
atoi (c ∷ s) = let rest = atoi s in if is_space c then rest else signed_value (c ∷ s)

abbrev AllDigits : List ℕ → Type 0
AllDigits [] = Unit
AllDigits (c ∷ s) = (is_digit c ≡ true) × AllDigits s

AllDigits-append : (s t : List ℕ) → AllDigits s → AllDigits t → AllDigits (s ++ t)
AllDigits-append [] t hs ht = ht
AllDigits-append (c ∷ s) t hs ht = (hs.0, AllDigits-append s t hs.1 ht)

digits_value-append :
    (acc : ℕ) (s t : List ℕ)
    → AllDigits s
    → digits_value acc (s ++ t) ≡ digits_value (digits_value acc s) t
unfolding digits_value
digits_value-append acc [] t h = refl
digits_value-append acc (c ∷ s) t h = rw h.0 (digits_value-append (acc * 10 + (c - 48)) s t h.1)

show_fuel-AllDigits : (f n : ℕ) → AllDigits (show_fuel f n)
unfolding show_fuel
show_fuel-AllDigits zero n = tt
show_fuel-AllDigits (suc f) n = elim (Bool-cases (ltb n 10)) [
  | inl small ↦ rw small (ground arith, tt)
  | inr big ↦ rw big (
      AllDigits-append (show_fuel f (n / 10)) _ (show_fuel-AllDigits f (n / 10)) (ground arith, tt))
]

digits_value-show_fuel : (f n : ℕ) → n < f → digits_value 0 (show_fuel f n) ≡ n
unfolding show_fuel digits_value
digits_value-show_fuel zero n h = absurd (omega arith)
digits_value-show_fuel (suc f) n h = elim (Bool-cases (ltb n 10)) [
  | inl small ↦ rw small (ground arith)
  | inr big ↦
      rw
        (
          big,
          digits_value-append 0 (show_fuel f (n / 10)) _ (show_fuel-AllDigits f (n / 10)),
          digits_value-show_fuel f (n / 10) (ground arith),
        )
        (ground arith)
]

atoi-AllDigits : (s : List ℕ) → AllDigits s → atoi s ≡ pos (digits_value 0 s)
unfolding atoi
atoi-AllDigits [] h = refl
atoi-AllDigits (c ∷ s) h =
    let digit : is_digit c ≡ true = h.0 in
    let no_space : is_space c ≡ false = ground arith in
    let no_minus : (c == 45) ≡ false = ground arith in
    let no_plus : (c == 43) ≡ false = ground arith in rw (no_space, no_minus, no_plus)

show_nat-AllDigits : (n : ℕ) → AllDigits (show_nat n)
unfolding show_nat
show_nat-AllDigits n = show_fuel-AllDigits (suc n) n

digits_value-show_nat : (n : ℕ) → digits_value 0 (show_nat n) ≡ n
unfolding show_nat
digits_value-show_nat n = digits_value-show_fuel (suc n) n (omega arith)

atoi-minus : (s : List ℕ) → atoi (45 ∷ s) ≡ negate (digits_value 0 s)
unfolding atoi
atoi-minus s = refl

-- `atoi` reads back what `%d` printed, for every integer, negative ones included.
pub atoi-show_int : (z : ℤ) → atoi (show_int z) ≡ z
unfolding show_int
atoi-show_int (pos n) =
    rw (atoi-AllDigits (show_nat n) (show_nat-AllDigits n)) (ap pos (digits_value-show_nat n))
atoi-show_int (negsuc n) = atoi-minus (show_nat (suc n)) ∙ ap negate (digits_value-show_nat (suc n))

show_int_value : show_int (negsuc 41) ≡ 45 ∷ 52 ∷ 50 ∷ []
unfolding show_int show_nat
show_int_value = refl

length-show_fuel-le : (k f n : ℕ) → n < 10 ^ suc k → length (show_fuel f n) ≤ suc k
unfolding show_fuel
length-show_fuel-le k zero n h = omega arith
length-show_fuel-le zero (suc f) n h =
    let small : ltb n 10 ≡ true = ground arith in rw small (omega arith)
length-show_fuel-le (suc k) (suc f) n h = elim (Bool-cases (ltb n 10)) [
  | inl small ↦ rw small (omega arith)
  | inr big ↦
      let shorter : n / 10 < 10 ^ suc k = omega (arith, pow-suc 10 (suc k)) in
      rw (big, length-append (show_fuel f (n / 10)) ((48 + n % 10) ∷ []))
        (omega (arith, length-show_fuel-le k f (n / 10) shorter))
]

length-show_nat-le : (n : ℕ) → n < 10 ^ 10 → length (show_nat n) ≤ 10
unfolding show_nat
length-show_nat-le n h = length-show_fuel-le 9 (suc n) n h

-- An `int`.
abbrev pub IsInt : ℤ → Type 0
IsInt (pos n) = n < 2 ^ 31
IsInt (negsuc n) = n < 2 ^ 31

-- The digits and the sign of an `int` take 11 characters at most.
pub length-show_int-le : (z : ℤ) → IsInt z → length (show_int z) ≤ 11
unfolding show_int
length-show_int-le (pos n) h = omega (arith, length-show_nat-le n (omega arith))
length-show_int-le (negsuc n) h = omega (arith, length-show_nat-le (suc n) (omega arith))
