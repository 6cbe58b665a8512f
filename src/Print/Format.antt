-- ===== src/Print/Format.antt =====
-- kernel/print.c: what the formatter makes of a format's text and of its conversions.
use leoman.Base.{ℕ, ◌^◌, ◌<◌, List, [], ◌∷◌, ◌++◌}
use leoman.Base.{◌≡◌, ◌≢◌, ap, sym, ◌∙◌, arith, false, ◌==◌, Run, done, ◌>>=◌, length, some}
use leoman.Print.{Arg, number, kvformat, conversion}
use leoman.Print.Digits.{read_number, putd_lem, puthd_lem, append_assoc, append_nil}

-- A text without conversions.
abbrev pub IsText : List ℕ → Type 0
IsText [] = Unit {0}
IsText (c ∷ cs) = (c ≢ b'%') × IsText cs

kvformat-char :
    (c : ℕ) (fmt : List ℕ) (args : List Arg) (buf : List ℕ)
    → c ≢ b'%'
    → kvformat (c ∷ fmt) args buf ≡ kvformat fmt args (buf ++ c ∷ [])
unfolding kvformat
kvformat-char c [] args buf h =
    let text : (c == b'%') ≡ false = ground (arith, h) in
    rw (text, kvformat) (ap done (sym (append_assoc buf (c ∷ []) (0 ∷ []))))
kvformat-char c (next ∷ fmt) args buf h =
    let text : (c == b'%') ≡ false = ground (arith, h) in rw (text, kvformat)

kvformat-text :
    (text fmt : List ℕ) (args : List Arg) (buf : List ℕ)
    → IsText text
    → kvformat (text ++ fmt) args buf ≡ kvformat fmt args (buf ++ text)
kvformat-text [] fmt args buf h = ap (kvformat fmt args) (append_nil buf)
kvformat-text (c ∷ text) fmt args buf h =
    kvformat-char c (text ++ fmt) args buf h.0
    ∙ (kvformat-text text fmt args (buf ++ c ∷ []) h.1
        ∙ ap (kvformat fmt args) (append_assoc buf (c ∷ []) text))

kvformat-conversion :
    (ch : ℕ) (fmt : List ℕ) (args args' : List Arg) (buf buf' : List ℕ)
    → conversion ch args buf ≡ done (args', buf')
    → kvformat (b'%' ∷ ch ∷ fmt) args buf ≡ kvformat fmt args' buf'
unfolding kvformat
kvformat-conversion ch fmt args args' buf buf' e = rw (e, kvformat)

-- A format's text before its first conversion is written as it is; a %d then writes characters
-- from 0 to 9 that name a positive int in decimal, a %x eight characters from 0 to 9 and a to f
-- that name that number in base 16; and the rest of the format goes on with the rest of the
-- arguments.
pub kvformat_lem :
    (text fmt : List ℕ) (v : ℕ) (args : List Arg) (buf : List ℕ)
    → IsText text
    → 0 < v
    → v < 2 ^ 31
    → (s t : List ℕ) × (read_number 10 (some 0) s ≡ some v)
      × (read_number 16 (some 0) t ≡ some v)
      × (length t ≡ 8)
      × (kvformat (text ++ b'%' ∷ b'd' ∷ fmt) (number v ∷ args) buf
          ≡ kvformat fmt args ((buf ++ text) ++ s))
      × (kvformat (text ++ b'%' ∷ b'x' ∷ fmt) (number v ∷ args) buf
          ≡ kvformat fmt args ((buf ++ text) ++ t))
unfolding conversion
kvformat_lem text fmt v args buf h pos l =
    let (s, _, e, reads, _, _) = putd_lem (buf ++ text) v pos l in
    let (t, f, size, reads') = puthd_lem (buf ++ text) v (omega arith) in
    let arg = number v ∷ args in
    (
      s,
      t,
      reads,
      reads',
      size,
      kvformat-text text _ arg buf h
          ∙ kvformat-conversion b'd' fmt arg args (buf ++ text) _
              (ap (λ (r : Run (List ℕ)). r >>= λ buf'. done (args, buf')) e),
      kvformat-text text _ arg buf h
          ∙ kvformat-conversion b'x' fmt arg args (buf ++ text) _
              (ap (λ (b : List ℕ). done (args, b)) f),
    )
