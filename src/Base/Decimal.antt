-- ===== src/Base/Decimal.antt =====
-- Numbers as decimal digits: printing as `sprintf_s` and `std::to_string` do, and `std::stoi`, where `none`
-- stands for an exception.
use server_programming.Base.{
  ℕ, zero, suc, ◌+◌, ◌-◌, ◌*◌, ◌/◌, ◌%◌, ◌^◌, ◌≤◌, ◌<◌, ◌≡◌, refl, sym, ap, subst, ◌∙◌, Bool, true,
  false, ◌&&◌, ◌||◌, inl, inr, Bool-cases, Option, none, some, List, [], ◌∷◌, arith, leb, ltb, ◌==◌,
  if◌then◌else◌,
}
use server_programming.Base.Int.{ℤ, pos, sub_ℕ}

-- The decimal digits of a number, in front of a text, with as many units of fuel as digits at most.
unfoldable pub decimal : ℕ → ℕ → List ℕ → List ℕ
decimal zero n out = out
decimal (suc fuel) n out =
    let rest = decimal fuel (n / 10) ((b'0' + n % 10) ∷ out) in
    if ltb n 10 then (b'0' + n) ∷ out else rest

abbrev is_digit : ℕ → Bool
is_digit c = leb 48 c && leb c 57

abbrev is_space : ℕ → Bool
is_space c = c == 32 || (leb 9 c && leb c 13)

-- The number that the digits at the front of a text add to
unfoldable pub digits : ℕ → List ℕ → ℕ
digits n [] = n
digits n (c ∷ s) = let rest = digits (10 * n + (c - 48)) s in if is_digit c then rest else n

-- `none` without a digit
unfoldable pub number : List ℕ → Option ℕ
number [] = none
number (c ∷ s) = if is_digit c then some (digits 0 (c ∷ s)) else none

-- The range of `int`, on either side
abbrev bounded : ℕ → (ℕ → ℤ) → Option ℕ → Option ℤ
bounded limit sign none = none
bounded limit sign (some n) = if leb n limit then some (sign n) else none

unfoldable pub signed_number : List ℕ → Option ℤ
unfolding number
signed_number [] = none
signed_number (c ∷ s) =
    if c == 45
    then bounded (2 ^ 31) (λ n. sub_ℕ 0 n) (number s)
    else if c == 43
    then bounded (2 ^ 31 - 1) pos (number s)
    else bounded (2 ^ 31 - 1) pos (number (c ∷ s))

unfoldable pub stoi : List ℕ → Option ℤ
unfolding signed_number
stoi [] = none
stoi (c ∷ s) = let rest = stoi s in if is_space c then rest else signed_number (c ∷ s)

-- The powers of ten
abbrev pub ten_to : ℕ → ℕ
ten_to zero = 1
ten_to (suc k) = 10 * ten_to k

pub digits-decimal :
    (fuel n : ℕ) (out : List ℕ) → n < ten_to fuel → digits 0 (decimal fuel n out) ≡ digits n out
unfolding digits decimal
digits-decimal zero n out h = ap (λ (k : ℕ). digits k out) {x = 0} (omega arith)
digits-decimal (suc fuel) n out h = elim (Bool-cases (ltb n 10)) [
  | inl small ↦ rw small (ground arith)
  | inr large ↦
      rw large (digits-decimal fuel (n / 10) ((48 + n % 10) ∷ out) (omega arith) ∙ ground arith)
]

-- A first digit
record Front (s : List ℕ) : Type 0 where
  digit : ℕ
  rest : List ℕ
  text_eq : s ≡ digit ∷ rest
  low : 48 ≤ digit
  high : digit ≤ 57

one_digit : (n : ℕ) (out : List ℕ) → n < 10 → Front ((48 + n) ∷ out)
one_digit n out h = record {
  digit = 48 + n;
  rest = out;
  text_eq = refl;
  low = omega arith;
  high = omega arith;
}

decimal-Front :
    (fuel n : ℕ) (out : List ℕ) → n < ten_to (suc fuel) → Front (decimal (suc fuel) n out)
unfolding decimal
decimal-Front zero n out h =
    let small : ltb n 10 ≡ true = ground arith in rw small (one_digit n out (omega arith))
decimal-Front (suc fuel) n out h = elim (Bool-cases (ltb n 10)) [
  | inl small ↦ rw small (one_digit n out (ground arith))
  | inr large ↦ rw large (decimal-Front fuel (n / 10) ((48 + n % 10) ∷ out) (omega arith))
]

stoi-Front : (s : List ℕ) → Front s → digits 0 s < 2147483648 → stoi s ≡ some (pos (digits 0 s))
unfolding stoi signed_number number
stoi-Front s f small = subst IsRead (sym f.text_eq) (read f.digit f.rest f.low f.high) small
  where
    IsRead : List ℕ → Type 0
    IsRead t = digits 0 t < 2147483648 → stoi t ≡ some (pos (digits 0 t))

    read : (c : ℕ) (t : List ℕ) → 48 ≤ c → c ≤ 57 → IsRead (c ∷ t)
    read c t low high small = ground arith

-- A number below 65536 is read back from its digits.
pub stoi-decimal : (n : ℕ) → n < 65536 → stoi (decimal 5 n []) ≡ some (pos n)
unfolding digits
stoi-decimal n h =
    let value = digits-decimal 5 n [] (omega arith) in
    stoi-Front (decimal 5 n []) (decimal-Front 4 n [] (omega arith)) (rw value (omega arith))
    ∙ ap (λ (k : ℕ). some (pos k)) value

-- A number's digits hold no character but digits in front of a text.
abbrev pub NotIn : ℕ → List ℕ → Type 0
NotIn c [] = Unit {0}
NotIn c (d ∷ s) = ((d == c) ≡ false) × NotIn c s

pub decimal-NotIn :
    (fuel n c : ℕ) (out : List ℕ) → 57 < c → NotIn c out → NotIn c (decimal fuel n out)
unfolding decimal
decimal-NotIn zero n c out h free = free
decimal-NotIn (suc fuel) n c out h free = elim (Bool-cases (ltb n 10)) [
  | inl small ↦ rw small (ground arith, free)
  | inr large ↦
      rw large (decimal-NotIn fuel (n / 10) c ((48 + n % 10) ∷ out) h (ground arith, free))
]
