-- ===== src/Network/Bytes.antt =====
-- The fields of the packed structures of GameServer/Network/Protocol.h in memory: little-endian
-- integers in two's complement, and texts that end with a NUL.
use server_programming.Base.{
  ℕ, zero, suc, ◌+◌, ◌*◌, ◌/◌, ◌%◌, ◌≤◌, ◌<◌, ◌≡◌, ◌≢◌, ap, ◌∙◌, List, [], ◌∷◌, arith, length, ◌==◌,
  if◌then◌else◌,
}
use server_programming.Base.Int.{
  ℤ, pos, negsuc, pos_part, neg_part, residue, to_char, to_short, to_int,
}
use server_programming.Network.BufferQueue.{Memory}

-- The characters from an address up to the first NUL, `limit` at most. Past `limit` the source
-- reads on; the checked copies reject a text of that length in any case.
unfoldable pub c_string : ℕ → Memory → ℕ → List ℕ
c_string zero m i = []
c_string (suc limit) m i =
    let rest = c_string limit m (suc i) in if m i == 0 then [] else m i ∷ rest

-- A `char`, a `short` and an `int` read at an address.
unfoldable pub read_char : Memory → ℕ → ℤ
unfolding to_char
read_char m i = to_char (pos (m i))

unfoldable pub read_short : Memory → ℕ → ℤ
unfolding to_short
read_short m i = to_short (pos (m i + 256 * m (suc i)))

unfoldable pub read_int : Memory → ℕ → ℤ
unfolding to_int
read_int m i =
    to_int
      (pos (m i + 256 * m (suc i) + 65536 * m (suc (suc i)) + 16777216 * m (suc (suc (suc i)))))

-- An id is an `int` that is not negative: its bit pattern.
unfoldable pub read_id : Memory → ℕ → ℕ
read_id m i = m i + 256 * m (suc i) + 65536 * m (suc (suc i)) + 16777216 * m (suc (suc (suc i)))

-- The same fields written.
unfoldable pub put_char : ℤ → List ℕ
unfolding residue
put_char z = residue 256 z ∷ []

unfoldable pub put_short : ℤ → List ℕ
unfolding residue
put_short z = let n = residue 65536 z in n % 256 ∷ n / 256 ∷ []

unfoldable pub put_int : ℤ → List ℕ
unfolding residue
put_int z =
    let n = residue 4294967296 z in n % 256 ∷ n / 256 % 256 ∷ n / 65536 % 256 ∷ n / 16777216 ∷ []

-- A text in a field of `n` characters that was filled with zeros.
unfoldable pub put_text : ℕ → List ℕ → List ℕ
put_text zero s = []
put_text (suc n) [] = 0 ∷ put_text n []
put_text (suc n) (c ∷ s) = c ∷ put_text n s

-- The memory holds the bytes from an address on.
abbrev pub Stores : Memory → ℕ → List ℕ → Type 0
Stores m i [] = Unit {0}
Stores m i (b ∷ bs) = (m i ≡ b) × Stores m (suc i) bs

-- What the types hold. A text has no NUL, and leaves room for one.
abbrev pub IsChar : ℤ → Type 0
IsChar z = (pos_part z < 128) × (neg_part z ≤ 128)

abbrev pub IsShort : ℤ → Type 0
IsShort z = (pos_part z < 32768) × (neg_part z ≤ 32768)

abbrev pub IsInt : ℤ → Type 0
IsInt z = (pos_part z < 2147483648) × (neg_part z ≤ 2147483648)

abbrev pub NoNul : List ℕ → Type 0
NoNul [] = Unit {0}
NoNul (c ∷ s) = (c ≢ 0) × NoNul s

abbrev pub IsText : ℕ → List ℕ → Type 0
IsText n s = (length s < n) × NoNul s

pub read_char-put_char :
    (m : Memory) (i : ℕ) (z : ℤ) → IsChar z → Stores m i (put_char z) → read_char m i ≡ z
unfolding read_char put_char to_char
read_char-put_char m i z fits h = ground arith

to_short-residue : (z : ℤ) → IsShort z → to_short (pos (residue 65536 z)) ≡ z
unfolding to_short
to_short-residue z fits = ground arith

to_int-residue : (z : ℤ) → IsInt z → to_int (pos (residue 4294967296 z)) ≡ z
unfolding to_int
to_int-residue z fits = ground arith

residue-lt : (m : ℕ) (z : ℤ) → 0 < m → residue m z < m
unfolding residue
residue-lt m (pos n) h = grind arith
residue-lt m (negsuc n) h = omega arith

pub read_short-put_short :
    (m : Memory) (i : ℕ) (z : ℤ) → IsShort z → Stores m i (put_short z) → read_short m i ≡ z
unfolding read_short put_short
read_short-put_short m i z fits h =
    let small = residue-lt 65536 z (omega arith) in
    let whole : m i + 256 * m (suc i) ≡ residue 65536 z = omega arith in
    ap to_short (ap pos whole) ∙ to_short-residue z fits

-- The four bytes of a number.
whole_int :
    (m : Memory) (i n : ℕ)
    → n < 4294967296
    → Stores m i (n % 256 ∷ n / 256 % 256 ∷ n / 65536 % 256 ∷ n / 16777216 ∷ [])
    → m i + 256 * m (suc i) + 65536 * m (suc (suc i)) + 16777216 * m (suc (suc (suc i))) ≡ n
whole_int m i n small h = omega arith

pub read_int-put_int :
    (m : Memory) (i : ℕ) (z : ℤ) → IsInt z → Stores m i (put_int z) → read_int m i ≡ z
unfolding read_int put_int
read_int-put_int m i z fits h =
    ap to_int
      (ap pos (whole_int m i (residue 4294967296 z) (residue-lt 4294967296 z (omega arith)) h))
    ∙ to_int-residue z fits

pub read_id-put_int :
    (m : Memory) (i n : ℕ) → n < 4294967296 → Stores m i (put_int (pos n)) → read_id m i ≡ n
unfolding read_id put_int residue
read_id-put_int m i n fits h =
    let small : n % 4294967296 ≡ n = omega arith in
    whole_int m i (n % 4294967296) (omega arith) h ∙ small

pub c_string-put_text :
    (n : ℕ) (m : Memory) (i : ℕ) (s : List ℕ)
    → IsText n s
    → Stores m i (put_text n s)
    → c_string n m i ≡ s
unfolding c_string put_text
c_string-put_text zero m i s fits h = absurd (omega arith)
c_string-put_text (suc n) m i [] fits h = ground arith
c_string-put_text (suc n) m i (c ∷ s) fits h = ground (arith, c_string-put_text n m (suc i) s)
