-- ===== src/Prelude/Decimal.antt =====
-- fmt.Sprint of an int and fmt.Sscanf with "%d", in decimal.
use Prim.Native.Nat.{ℕ, zero, suc, ◌+◌, ◌-◌, ◌*◌, ◌/◌, ◌%◌, ◌^◌, ◌≤◌, ◌<◌}
use mathlib.Core.Path.{◌≡◌, refl, ap, ◌∙◌}
use mathlib.Core.Bool.{Bool, true, false, not, ◌&&◌}
use mathlib.Core.Option.{Option, none, some}
use mathlib.Core.List.{[], ◌∷◌}
use native.Mathlib.Omega.{arith}
use mirrortools.Prelude.Tests.{if◌then◌else◌, ltb, leb, nat_eq}
use mirrortools.Prelude.Texts.{Text, drop_while, is_space}
use mirrortools.Prelude.Int.{ℤ, pos, negsuc}

-- The digits of n before a rest. The fuel is above n, and each round divides n by ten.
digits : ℕ → ℕ → Text → Text
digits zero n rest = rest
digits (suc f) n rest =
    let more = digits f (n / 10) ((48 + n % 10) ∷ rest) in
    if ltb n 10 then (48 + n) ∷ rest else more

unfoldable pub format_nat : ℕ → Text
unfolding digits
format_nat n = digits (suc n) n []

unfoldable pub format_int : ℤ → Text
unfolding format_nat
format_int (pos n) = format_nat n
format_int (negsuc n) = b'-' ∷ format_nat (suc n)

abbrev pub is_digit : ℕ → Bool
is_digit c = leb 48 c && leb c 57

-- The value of the leading digits.
read_digits : ℕ → Text → ℕ
read_digits n [] = n
read_digits n (c ∷ s) =
    let more = read_digits (n * 10 + (c - 48)) s in if is_digit c then more else n

starts_digit : Text → Bool
starts_digit [] = false
starts_digit (c ∷ s) = is_digit c

abbrev pub max_int : ℕ
max_int = 2 ^ 63 - 1

unsigned : Text → Option ℤ
unfolding read_digits starts_digit
unsigned s =
    let n = read_digits 0 s in
    if starts_digit s then (if leb n max_int then some (pos n) else none) else none

negated : Text → Option ℤ
unfolding read_digits starts_digit
negated s =
    let n = read_digits 0 s in
    if starts_digit s
    then (if leb n (max_int + 1) then some (elim n [ zero ↦ pos 0 | suc m ↦ negsuc m ]) else none)
    else none

signed : Text → Option ℤ
unfolding unsigned negated
signed [] = none
signed (c ∷ s) =
    if nat_eq c b'-' then negated s else if nat_eq c b'+' then unsigned s else unsigned (c ∷ s)

-- `none` is an error, which leaves the variable as it was.
unfoldable pub scan_int : Text → Option ℤ
unfolding signed drop_while
scan_int s = signed (drop_while is_space s)

all_digits : Text → Bool
all_digits [] = true
all_digits (c ∷ s) = is_digit c && all_digits s

-- What strconv.ParseInt makes of digits after a sign: a value or the nearest one in 64 bits, and
-- whether it is in range; none is a syntax error.
parse_unsigned : Bool → Text → Option (ℤ × Bool)
unfolding read_digits all_digits
parse_unsigned negative [] = none
parse_unsigned negative (c ∷ s) =
    let n = read_digits 0 (c ∷ s) in
    if not (all_digits (c ∷ s))
    then none
    else if negative
    then (if leb n (max_int + 1)
        then some (elim n [ zero ↦ pos 0 | suc m ↦ negsuc m ], true)
        else some (negsuc max_int, false))
    else if leb n max_int
    then some (pos n, true)
    else some (pos max_int, false)

unfoldable pub parse_number : Text → Option (ℤ × Bool)
unfolding parse_unsigned
parse_number [] = none
parse_number (c ∷ s) =
    if nat_eq c b'-'
    then parse_unsigned true s
    else if nat_eq c b'+'
    then parse_unsigned false s
    else parse_unsigned false (c ∷ s)

-- strconv.ParseInt(s, 10, 64); none is an error.
unfoldable pub parse_int : Text → Option ℤ
unfolding parse_number
parse_int s = elim (parse_number s) [ none ↦ none | some (n, fits) ↦ if fits then some n else none ]

-- strconv.Atoi, its error ignored.
unfoldable pub atoi : Text → ℤ
unfolding parse_number
atoi s = elim (parse_number s) [ none ↦ pos 0 | some (n, fits) ↦ n ]

read_digits-digits :
    (f n : ℕ) (rest : Text) → n < f → read_digits 0 (digits f n rest) ≡ read_digits n rest
unfolding digits read_digits
read_digits-digits zero n rest h = elim h [ ]
read_digits-digits (suc f) n rest h =
    ground (arith, read_digits-digits f (n / 10) ((48 + n % 10) ∷ rest))

-- What is printed begins with a digit.
abbrev LeadsDigit : Text → Type 0
LeadsDigit [] = ⊥
LeadsDigit (c ∷ s) = (48 ≤ c) × (c ≤ 57)

digits-LeadsDigit : (f n : ℕ) (rest : Text) → n < f → LeadsDigit (digits f n rest)
unfolding digits
digits-LeadsDigit zero n rest h = elim h [ ]
digits-LeadsDigit (suc f) n rest h =
    ground (arith, digits-LeadsDigit f (n / 10) ((48 + n % 10) ∷ rest))

scan_int_digit : (s : Text) → LeadsDigit s → scan_int s ≡ unsigned s
unfolding scan_int
scan_int_digit [] h = absurd h
scan_int_digit (c ∷ s) h = ground arith

unsigned_digit :
    (s : Text)
    → LeadsDigit s
    → read_digits 0 s ≤ max_int
    → unsigned s ≡ some (pos (read_digits 0 s))
unfolding unsigned
unsigned_digit [] h b = absurd h
unsigned_digit (c ∷ s) h b = ground arith

pub scan_int-format_nat : (n : ℕ) → n ≤ max_int → scan_int (format_nat n) ≡ some (pos n)
unfolding format_nat
scan_int-format_nat n h =
    let read = read_digits-digits (suc n) n [] (omega arith) in
    let leads = digits-LeadsDigit (suc n) n [] (omega arith) in
    scan_int_digit _ leads
    ∙ (unsigned_digit _ leads (rw read (unfold read_digits in h))
        ∙ ap (λ k. some (pos k)) (read ∙ unfold read_digits in refl))
