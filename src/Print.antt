-- ===== src/Print.antt =====
-- kernel/print.c: the formatter of the kernel's messages. The buffer is the list of the characters
-- written so far; its size is never tested in the source.
pub mod Digits
pub mod Format
use leoman.Base.{ℕ, zero, suc, ◌+◌, ◌-◌, ◌*◌, ◌/◌, ◌%◌, ◌^◌, bit_and, List, [], ◌∷◌, ◌++◌}
use leoman.Base.{true, false, ◌||◌, ltb, ◌==◌, if◌then◌else◌, shr, get_or, Run, done, fault, ◌>>=◌}

abbrev pub digits : List ℕ
digits =
    b'0' ∷ b'1' ∷ b'2' ∷ b'3' ∷ b'4' ∷ b'5' ∷ b'6' ∷ b'7' ∷ b'8' ∷ b'9' ∷ b'a' ∷ b'b' ∷ b'c' ∷ b'd'
    ∷ b'e' ∷ b'f' ∷ []

unfoldable pub putch : List ℕ → ℕ → List ℕ
putch buf ch = buf ++ ch ∷ []

unfoldable pub puts : List ℕ → List ℕ → List ℕ
unfolding putch
puts buf [] = buf
puts buf (ch ∷ s) = puts (putch buf ch) s

unfoldable pub put_digit : List ℕ → ℕ → List ℕ
unfolding putch
put_digit buf ch = putch buf (get_or digits (ch % 16) 0)

-- The array `out` from its first element on; a digit that has no slot is written behind it.
unfoldable pub split_digits : ℕ → ℕ → Run (List ℕ)
split_digits zero v = if v == 0 then done [] else fault
split_digits (suc slots) v = elim (v == 0) [
  | true ↦ done []
  | false ↦ split_digits slots (v / 10) >>= λ rest. done (v % 10 ∷ rest)
]

-- The last loop of `putd`, from the last digit of `out` to the first.
unfoldable pub put_digits : List ℕ → List ℕ → List ℕ
unfolding put_digit
put_digits buf [] = buf
put_digits buf (d ∷ ds) = put_digit (put_digits buf ds) d

-- `v` is an int modulo 2 ^ 32; the least int has no negation.
unfoldable pub putd : List ℕ → ℕ → Run (List ℕ)
unfolding putch put_digits split_digits
putd buf v =
    if v == 0
    then done (putch buf b'0')
    else if v == 2 ^ 31
    then fault
    else if ltb v (2 ^ 31)
    then (split_digits 10 v >>= λ out. done (put_digits buf out))
    else split_digits 10 (2 ^ 32 - v) >>= λ out. done (put_digits (putch buf b'-') out)

-- The loop of `puthd`, `puthw` and `puthb` with `i` digits left.
unfoldable pub put_hex : ℕ → ℕ → List ℕ → ℕ → List ℕ
unfolding put_digit
put_hex zero mask buf v = buf
put_hex (suc i) mask buf v =
    let rest = put_hex i (shr mask 4) (put_digit buf (shr (bit_and v mask) (i * 4))) v in
    if mask == 0 then buf else rest

unfoldable pub puthd : List ℕ → ℕ → List ℕ
unfolding put_hex
puthd buf v = put_hex 8 0xf0000000 buf v

unfoldable pub puthw : List ℕ → ℕ → List ℕ
unfolding put_hex
puthw buf v = put_hex 4 0xf000 buf v

unfoldable pub puthb : List ℕ → ℕ → List ℕ
unfolding put_hex
puthb buf v = put_hex 2 0xf0 buf v

-- An argument of the variable list: a number, or a string without its NUL.
pub data Arg : Type 0 where
  number : ℕ → Arg
  string : List ℕ → Arg

unfoldable pub conversion : ℕ → List Arg → List ℕ → Run (List Arg × List ℕ)
unfolding putch putd puthd puts
conversion ch (number v ∷ args) buf =
    if ch == b'%'
    then done (number v ∷ args, putch buf b'%')
    else if ch == b'c'
    then done (args, putch buf (v % 256))
    else if ch == b'd'
    then (putd buf v >>= λ buf'. done (args, buf'))
    else if ch == b'x'
    then done (args, puthd buf v)
    else if ch == b's'
    then fault
    else done (number v ∷ args, buf)
conversion ch (string s ∷ args) buf =
    if ch == b'%'
    then done (string s ∷ args, putch buf b'%')
    else if ch == b's'
    then done (args, puts buf s)
    else if (ch == b'c') || ((ch == b'd') || (ch == b'x'))
    then fault
    else done (string s ∷ args, buf)
conversion ch [] buf =
    if ch == b'%'
    then done ([], putch buf b'%')
    else if (ch == b'c') || ((ch == b'd') || ((ch == b'x') || (ch == b's')))
    then fault
    else done ([], buf)

-- A `%` at the end of the format lets the loop run past its NUL.
unfoldable pub kvformat : List ℕ → List Arg → List ℕ → Run (List ℕ)
unfolding conversion
kvformat [] args buf = done (buf ++ 0 ∷ [])
kvformat (ch ∷ []) args buf = if ch == b'%' then fault else done (buf ++ ch ∷ 0 ∷ [])
kvformat (ch ∷ next ∷ fmt) args buf = elim (ch == b'%') [
  | true ↦ conversion next args buf >>= λ r. kvformat fmt r.0 r.1
  | false ↦ kvformat (next ∷ fmt) args (buf ++ ch ∷ [])
]
