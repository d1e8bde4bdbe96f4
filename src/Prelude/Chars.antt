-- ===== src/Prelude/Chars.antt =====
-- Python's operations on texts that go by characters: `strip`, `split`, `partition` and the reading and
-- printing of hexadecimal numbers. Characters outside ASCII are no white space and no digits here.
use Prim.Native.Nat.{ℕ, zero, suc, ◌+◌, ◌-◌, ◌*◌, ◌/◌, ◌%◌}
use Prim.Native.String.{String, [], ◌∷◌, ◌++◌, len, slice}
use Prim.Native.Char.{Char, code}
use mathlib.Core.Bool.{Bool, true, false, ◌&&◌, ◌||◌}
use mathlib.Core.Option.{Option, none, some}
use mathlib.Core.List.{List, [] as nil, ◌∷◌ as cons}
use snap_openstack.Prelude.Tests.{ltb, leb, ◌==◌, nat_eq, if◌then◌else◌}
use snap_openstack.Prelude.Texts.{starts_with}

abbrev is_space : Char → Bool
is_space c = let n = code c in n == 32 || (leb 9 n && leb n 13) || (leb 28 n && leb n 31)

-- `s.lstrip()`
unfoldable pub lstrip : String → String
lstrip [] = []
lstrip (c ∷ s) = let rest = lstrip s in if is_space c then rest else c ∷ s

abbrev rstrip_char : Char → String → String
rstrip_char c [] = if is_space c then [] else c ∷ []
rstrip_char c (d ∷ s) = c ∷ d ∷ s

-- `s.rstrip()`
unfoldable pub rstrip : String → String
rstrip [] = []
rstrip (c ∷ s) = rstrip_char c (rstrip s)

-- `s.strip()`
abbrev pub strip : String → String
strip s = lstrip (rstrip s)

abbrev pub put_first : Char → List String → List String
put_first c nil = nil
put_first c (cons x xs) = cons (c ∷ x) xs

-- `s.split(sep)`, for one character `sep` given by its number.
unfoldable pub split : ℕ → String → List String
split sep [] = cons [] nil
split sep (c ∷ s) =
    let rest = split sep s in if code c == sep then cons [] rest else put_first c rest

-- `s.partition(sep)`: what stands before the first `sep`, and what stands behind it.
unfoldable pub partition : ℕ → String → String × String
partition sep [] = ([], [])
partition sep (c ∷ s) =
    let rest = partition sep s in if code c == sep then ([], s) else (c ∷ rest.0, rest.1)

abbrev drop_first : String → String
drop_first [] = []
drop_first (c ∷ s) = s

-- `s.replace("0x", "")`: from the back, since no two occurrences overlap; an `x` is never dropped alone.
unfoldable pub erase_0x : String → String
erase_0x [] = []
erase_0x (c ∷ s) =
    let rest = erase_0x s in
    if code c == b'0' && starts_with s "x" then drop_first rest else c ∷ rest

abbrev hex_digit : Char → Option ℕ
hex_digit c =
    let n = code c in
    if leb b'0' n && leb n b'9'
    then some (n - b'0')
    else if leb b'a' n && leb n b'f'
    then some (n - b'a' + 10)
    else if leb b'A' n && leb n b'F'
    then some (n - b'A' + 10)
    else none

-- One character of a number: the value so far, and whether the last character was a digit.
abbrev read_char : Char → ℕ × Bool → Option (ℕ × Bool)
read_char c (n, after_digit) =
    if code c == b'_'
    then if after_digit then some (n, false) else none
    else elim (hex_digit c) [ none ↦ none | some d ↦ some (16 * n + d, true) ]

unfoldable read_digits : ℕ × Bool → String → Option ℕ
read_digits (n, after_digit) [] = if after_digit then some n else none
read_digits st (c ∷ s) = elim (read_char c st) [ none ↦ none | some next ↦ read_digits next s ]

abbrev drop_underscore : String → String
drop_underscore s = if starts_with s "_" then drop_first s else s

-- Digits, with or without a prefix.
abbrev read_unsigned : String → Option ℕ
read_unsigned s =
    let digits =
      if starts_with s "0x" || starts_with s "0X"
      then drop_underscore (drop_first (drop_first s))
      else s in
    read_digits (0, false) digits

-- A number with its sign: `true` is the minus.
abbrev pub Signed : Type 0
Signed = Bool × ℕ

abbrev with_sign : Bool → Option ℕ → Option Signed
with_sign minus none = none
with_sign minus (some n) = some (minus, n)

-- `int(s, 16)`, for a text without white space around it.
unfoldable pub int_16 : String → Option Signed
unfolding read_digits
int_16 s =
    if starts_with s "-"
    then with_sign true (read_unsigned (drop_first s))
    else if starts_with s "+"
    then with_sign false (read_unsigned (drop_first s))
    else with_sign false (read_unsigned s)

unfoldable hex_text : ℕ → ℕ → String → String
hex_text zero n rest = rest
hex_text (suc fuel) n rest =
    let text = slice "0123456789abcdef" (n % 16) (suc (n % 16)) ++ rest in
    elim (ltb n 16) [ true ↦ text | false ↦ hex_text fuel (n / 16) text ]

unfoldable pub pad : ℕ → String → String
pad zero s = s
pad (suc n) s = "0" ++ pad n s

-- `"%0<width>x" % n`: the sign counts for the width, and minus nought has none. As many turns as the
-- number says are enough for its digits.
unfoldable pub format_hex : ℕ → Signed → String
unfolding hex_text pad
format_hex width (minus, n) =
    let digits = hex_text (suc n) n "" in
    let sign = if minus && ltb 0 n then "-" else "" in
    sign ++ pad (width - len (sign ++ digits)) digits

abbrev lower_char : Char → String
lower_char c =
    let n = code c in
    if leb b'A' n && leb n b'Z'
    then slice "abcdefghijklmnopqrstuvwxyz" (n - b'A') (suc (n - b'A'))
    else c ∷ []

-- `s.lower()`, of the letters of ASCII.
unfoldable pub lower_ascii : String → String
lower_ascii [] = []
lower_ascii (c ∷ s) = lower_char c ++ lower_ascii s
