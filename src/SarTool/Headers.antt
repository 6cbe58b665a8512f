-- ===== src/SarTool/Headers.antt =====
-- tools/sar.c and kernel/sar.c: a header that stands in a file is read back.
use leoman.Base.{
  ℕ, zero, suc, ◌+◌, ◌/◌, ◌%◌, ◌^◌, ◌<◌, ◌≡◌, ◌≢◌, refl, ap, ◌∙◌, arith, false, ◌==◌, some, List,
  [], ◌∷◌, ◌++◌, length, get_elem?, done, bit_or, Option-at_some,
}
use leoman.Base.Bits.{bit, bit_ext, bit-bit_or, bit-zero}
use leoman.Sar.{SarFile, byte, word, header_at, fhdr_fname}
use leoman.SarTool.{le32, header_bytes, c_string, bytes}
use leoman.SarTool.Files.{IsAt, IsAt-left, IsAt-right}

byte_lem :
    (file : List ℕ) (o : ℕ) (ds : List ℕ) (i b j : ℕ)
    → IsAt file o ds
    → i < length ds
    → get_elem? ds i ≡ some b
    → j ≡ o + i
    → byte file j ≡ done b
unfolding byte
byte_lem file o ds i b j at l e where_ =
    Option-at_some (get_elem? file j) _ _ b (ap (get_elem? file) where_ ∙ (at i l ∙ e))

word_lem : (file : List ℕ) (o n : ℕ) → n < 2 ^ 32 → IsAt file o (le32 n) → word file o ≡ done n
unfolding word le32
word_lem file o n l at =
    rw
      (
        byte_lem file o (le32 n) 0 (n % 256) o at (omega arith) refl (omega arith),
        byte_lem file o (le32 n) 1 (n / 256 % 256) (o + 1) at (omega arith) refl (omega arith),
        byte_lem file o (le32 n) 2 (n / 65536 % 256) (o + 2) at (omega arith) refl (omega arith),
        byte_lem file o (le32 n) 3 (n / 16777216 % 256) (o + 3) at (omega arith) refl (omega arith),
      )
      (ap done (omega arith))

length-le32 : (n : ℕ) → length (le32 n) ≡ 4
unfolding le32
length-le32 n = refl

pub length-header_bytes : (h : SarFile) → length (header_bytes h) ≡ 12
unfolding header_bytes le32
length-header_bytes h = refl

pub header_at_lem :
    (file : List ℕ) (o : ℕ) (h : SarFile)
    → h.size < 2 ^ 32
    → h.offset < 2 ^ 32
    → h.namelen < 2 ^ 32
    → IsAt file o (header_bytes h)
    → header_at file o ≡ done h
unfolding header_at header_bytes
header_at_lem file o h ls lo ln at =
    let rest = IsAt-right file o (le32 h.size) (le32 h.offset ++ le32 h.namelen) at in
    let four = length-le32 h.size in
    let second : IsAt file (o + 4) (le32 h.offset ++ le32 h.namelen) = rw (← four) rest in
    let third : IsAt file (o + 8) (le32 h.namelen) = λ i l.
      ap (get_elem? file) (omega (arith, length-le32 h.offset))
      ∙ IsAt-right file (o + 4) (le32 h.offset) (le32 h.namelen) second i l in
    rw
      (
        word_lem file o h.size ls
            (IsAt-left file o (le32 h.size) (le32 h.offset ++ le32 h.namelen) at),
        word_lem file (o + 4) h.offset lo
            (IsAt-left file (o + 4) (le32 h.offset) (le32 h.namelen) second),
        word_lem file (o + 8) h.namelen ln third,
      )
      refl

fhdr_fname-zero : (file : List ℕ) → fhdr_fname file 0 ≡ file
unfolding fhdr_fname
fhdr_fname-zero [] = refl
fhdr_fname-zero (x ∷ file) = refl

pub fhdr_fname-cons :
    (file : List ℕ) (o b : ℕ)
    → get_elem? file o ≡ some b
    → fhdr_fname file o ≡ b ∷ fhdr_fname file (o + 1)
unfolding fhdr_fname
fhdr_fname-cons [] o b e = cc
fhdr_fname-cons (x ∷ file) zero b e = let rest = fhdr_fname-zero file in cc
fhdr_fname-cons (x ∷ file) (suc o) b e =
    fhdr_fname-cons file o b e
    ∙ ap (λ (k : ℕ). b ∷ fhdr_fname (x ∷ file) k) {x = suc (o + 1)} (omega arith)

-- A name is a C string: no byte of it is NUL.
abbrev pub IsName : List ℕ → Type 0
IsName [] = Unit {0}
IsName (b ∷ bs) = (b ≢ 0) × IsName bs

pub c_string_lem :
    (name file : List ℕ) (o : ℕ)
    → IsName name
    → IsAt file o (name ++ (0 ∷ []))
    → c_string (fhdr_fname file o) ≡ done name
unfolding c_string
c_string_lem [] file o ok at =
    let here = fhdr_fname-cons file o 0 (ap (get_elem? file) (omega arith) ∙ at 0 (omega arith)) in
    rw here refl
c_string_lem (b ∷ name) file o (ok, oks) at =
    let here = fhdr_fname-cons file o b (ap (get_elem? file) (omega arith) ∙ at 0 (omega arith)) in
    let no_nul : (b == 0) ≡ false = ground arith in
    let rest =
      c_string_lem name file (o + 1) oks
        (λ i l. ap (get_elem? file) (omega arith) ∙ at (suc i) (omega arith)) in
    rw (here, no_nul, rest) refl

pub bytes_lem : (xs file : List ℕ) (o : ℕ) → IsAt file o xs → bytes file o (length xs) ≡ done xs
unfolding bytes
bytes_lem [] file o at = refl
bytes_lem (x ∷ xs) file o at =
    rw
      (
        byte_lem file o (x ∷ xs) 0 x o at (omega arith) refl (omega arith),
        bytes_lem xs file (o + 1)
            (λ i l. ap (get_elem? file) (omega arith) ∙ at (suc i) (omega arith)),
      )
      refl

-- A disjunction with a number that is not zero is not zero.
pub bit_or-nonzero : (a b : ℕ) → b < 2 ^ 32 → b ≢ 0 → bit_or a b ≢ 0
bit_or-nonzero a b l ne e = ne (
    bit_ext 32 b 0 l (omega arith)
      (λ k lk. omega (arith, bit-bit_or a b k, ap (λ (n : ℕ). bit n k) e, bit-zero k)))
