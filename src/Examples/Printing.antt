-- ===== src/Examples/Printing.antt =====
-- The formatter on a short format.
use leoman.Base.{ℕ, ◌-◌, ◌^◌, List, [], ◌∷◌, ◌++◌, ◌≡◌, arith, done, length, some}
use leoman.Print.{number, kvformat, putd}
use leoman.Print.Digits.{read_number, putd_lem}
use leoman.Print.Format.{kvformat_lem}

putd_example :
    (s t : List ℕ) × (putd [] 1024 ≡ done ([] ++ s))
    × (read_number 10 (some 0) s ≡ some 1024)
    × (putd [] (2 ^ 32 - 1024) ≡ done ([] ++ b'-' ∷ t))
    × (read_number 10 (some 0) t ≡ some 1024)
putd_example = putd_lem [] 1024 (omega arith) (omega arith)

abbrev prefix : List ℕ
prefix = b'p' ∷ b'i' ∷ b'd' ∷ b' ' ∷ []

kvformat_example :
    (s t : List ℕ) × (read_number 10 (some 0) s ≡ some 42)
    × (read_number 16 (some 0) t ≡ some 42)
    × (length t ≡ 8)
    × (kvformat (prefix ++ b'%' ∷ b'd' ∷ []) (number 42 ∷ []) []
        ≡ kvformat [] [] (([] ++ prefix) ++ s))
    × (kvformat (prefix ++ b'%' ∷ b'x' ∷ []) (number 42 ∷ []) []
        ≡ kvformat [] [] (([] ++ prefix) ++ t))
kvformat_example =
    kvformat_lem prefix [] 42 [] []
      ((λ e. omega arith), ((λ e. omega arith), ((λ e. omega arith), ((λ e. omega arith), tt))))
      (omega arith) (omega arith)
