-- ===== src/Text/Number.antt =====
-- strconv.Atoi for a 64-bit `int`, and strconv.Itoa of a number that is not negative.
use jobscout.Prelude.{
  ltb, ◌/◌, ◌%◌, ◌≤◌, ◌≡◌, arith, Bool-cases, inl, inr, ℕ, zero, suc, ◌+◌, ◌-◌, ◌*◌, ◌^◌, ◌&&◌, [],
  ◌∷◌, Option, none, some, is_empty, leb, eqb, if◌then◌else◌,
}
use jobscout.Prelude.Int.{ℤ, pos, negsuc}
use jobscout.Text.{Text}

abbrev pub max_int : ℕ
max_int = 2 ^ 63 - 1

-- the value of decimal digits, behind those of value `n`
unfoldable pub digits_value : ℕ → Text → Option ℕ
digits_value n [] = some n
digits_value n (c ∷ s) =
    let rest = digits_value (n * 10 + (c - b'0')) s in
    if leb b'0' c && leb c b'9' then rest else none

abbrev positive : Option ℕ → Option ℤ
positive none = none
positive (some n) = if leb n max_int then some (pos n) else none

abbrev negative : Option ℕ → Option ℤ
negative none = none
negative (some zero) = some (pos 0)
negative (some (suc n)) = if leb n max_int then some (negsuc n) else none

-- at least one digit
unfoldable pub unsigned : Text → Option ℕ
unfolding digits_value
unsigned s = if is_empty s then none else digits_value 0 s

unfoldable pub atoi : Text → Option ℤ
unfolding unsigned
atoi [] = none
atoi (c ∷ s) =
    if eqb c b'-'
    then negative (unsigned s)
    else if eqb c b'+'
    then positive (unsigned s)
    else positive (unsigned (c ∷ s))

-- the decimal digits of `n` before those of `acc`, on fuel that `n` itself gives
unfoldable pub digits_from : ℕ → ℕ → Text → Text
digits_from zero n acc = acc
digits_from (suc fuel) n acc =
    let rest = digits_from fuel (n / 10) ((b'0' + n % 10) ∷ acc) in
    if ltb n 10 then (b'0' + n) ∷ acc else rest

-- strconv.Itoa, and fmt.Sprintf of `%d`
unfoldable pub itoa : ℤ → Text
unfolding digits_from
itoa (pos n) = digits_from (suc n) n []
itoa (negsuc n) = b'-' ∷ digits_from (suc (suc n)) (suc n) []

-- The fuel is enough: the digits read back as the number.
pub digits_value-digits_from :
    (fuel n : ℕ) (acc : Text)
    → n ≤ fuel
    → digits_value 0 (digits_from (suc fuel) n acc) ≡ digits_value n acc
unfolding digits_value digits_from
digits_value-digits_from zero n acc h = ground arith
digits_value-digits_from (suc fuel) n acc h = elim (Bool-cases (ltb n 10)) [
  | inl e ↦ ground arith
  | inr e ↦ ground (arith, digits_value-digits_from fuel (n / 10) ((b'0' + n % 10) ∷ acc))
]
