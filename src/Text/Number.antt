-- ===== src/Text/Number.antt =====
-- Numbers in text: `str(n)`, `f"{n:04d}"`, `f"{n:02x}"` and `int(text, base)`.
use Prim.Native.Nat.{suc, zero, ℕ, ◌%◌, ◌*◌, ◌+◌, ◌-◌, ◌/◌}
use mos_agondev.Prelude.{
  List, [], if◌then◌else◌, leb, length, list_eq, ltb, nat_eq, option_eq, pair_eq, replicate, ◌++◌,
  ◌==◌, ◌∷◌,
}

-- a digit in a base up to 16, in lower case
unfoldable pub digit_char : ℕ → ℕ
digit_char d = if ltb d 10 then b'0' + d else b'a' + (d - 10)

-- The digits of `n` in front of `acc`. The fuel `n` is enough, since each round divides.
unfoldable pub digits_onto : ℕ → ℕ → ℕ → List ℕ → List ℕ
digits_onto base zero n acc = acc
digits_onto base (suc fuel) n acc =
    let front = digits_onto base fuel (n / base) (digit_char (n % base) ∷ acc) in
    if n == 0 then acc else front

unfoldable pub in_base : ℕ → ℕ → List ℕ
unfolding digits_onto digit_char
in_base base n = if n == 0 then b'0' ∷ [] else digits_onto base n n []

abbrev pub decimal : ℕ → List ℕ
decimal n = in_base 10 n

-- `f"{n:0{width}d}"` and `f"{n:0{width}x}"`
unfoldable pub padded : ℕ → ℕ → ℕ → List ℕ
unfolding in_base
padded base width n = let text = in_base base n in replicate (width - length text) b'0' ++ text

-- the value of a digit, whatever its case
unfoldable pub digit_value : ℕ → ℕ
digit_value c = if leb c b'9' then c - b'0' else if leb c b'F' then c - 55 else c - 87

-- the value of a text of digits, after `acc`
unfoldable pub value_from : ℕ → ℕ → List ℕ → ℕ
unfolding digit_value
value_from base acc [] = acc
value_from base acc (c ∷ cs) = value_from base (acc * base + digit_value c) cs
