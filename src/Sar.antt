-- ===== src/Sar.antt =====
-- kernel/sar.c and include/kernel/sar.h: the search in an archive, a list of bytes. A pointer into
-- it is its offset modulo 2 ^ 32; a read behind the archive's end faults.
use leoman.Base.{ℕ, zero, suc, ◌+◌, ◌*◌, ◌^◌, true, false, Option, none, some, List, [], ◌∷◌}
use leoman.Base.{◌==◌, bit_or, u32, get_elem?, Run, done, fault, halted, ◌>>=◌}
use leoman.Dispatcher.{streq}

abbrev pub sizeof_sar_header : ℕ
sizeof_sar_header = 4

abbrev pub sizeof_sar_file : ℕ
sizeof_sar_file = 12

-- `struct sar_file`
pub record SarFile : Type 0 where
  pub size : ℕ
  pub offset : ℕ
  pub namelen : ℕ

unfoldable pub byte : List ℕ → ℕ → Run ℕ
byte file i = elim (get_elem? file i) [ none ↦ fault | some b ↦ done b ]

unfoldable pub word : List ℕ → ℕ → Run ℕ
unfolding byte
word file i = do
  a ← byte file i
  b ← byte file (i + 1)
  c ← byte file (i + 2)
  d ← byte file (i + 3)
  done (a + 2 ^ 8 * b + 2 ^ 16 * c + 2 ^ 24 * d)

unfoldable pub header_at : List ℕ → ℕ → Run SarFile
unfolding word
header_at file fhdr = do
  size ← word file fhdr
  offset ← word file (fhdr + 4)
  namelen ← word file (fhdr + 8)
  done (record { size = size; offset = offset; namelen = namelen })

-- `FHDR_FNAME`: the bytes from the name on.
unfoldable pub fhdr_fname : List ℕ → ℕ → List ℕ
fhdr_fname [] i = []
fhdr_fname (b ∷ file) zero = b ∷ file
fhdr_fname (b ∷ file) (suc i) = fhdr_fname file i

-- What the loop does at one header.
pub data Round : Type 0 where
  terminator : Round
  hit : Round
  next_header : ℕ → Round

unfoldable pub round : List ℕ → List ℕ → ℕ → Run Round
unfolding header_at fhdr_fname
round file fname fhdr = do
  h ← header_at file fhdr
  elim (bit_or (bit_or h.size h.offset) h.namelen == 0) [
    | true ↦ done terminator
    | false ↦ do
      same ← streq (fhdr_fname file (fhdr + sizeof_sar_file)) fname
      elim same [
        | true ↦ done hit
        | false ↦ done (next_header (u32 (fhdr + sizeof_sar_file + h.namelen)))
      ]
  ]

-- The loop from the header at `fhdr` on; it is `none` when it runs out of fuel.
unfoldable pub lookup_loop : ℕ → List ℕ → List ℕ → ℕ → Option (Run (Option ℕ))
unfolding round
lookup_loop zero file fname fhdr = none
lookup_loop (suc fuel) file fname fhdr = elim (round file fname fhdr) [
  | fault ↦ some fault
  | halted ↦ some halted
  | done r ↦ elim r [
    | terminator ↦ some (done none)
    | hit ↦ some (done (some fhdr))
    | next_header fhdr' ↦ lookup_loop fuel file fname fhdr'
  ]
]

unfoldable pub sar_lookup : ℕ → List ℕ → List ℕ → Option (Run (Option ℕ))
unfolding lookup_loop
sar_lookup fuel file fname = lookup_loop fuel file fname sizeof_sar_header

-- The offset of the contents in the archive.
unfoldable pub sar_get_contents : ℕ → List ℕ → List ℕ → Option (Run (Option ℕ))
unfolding sar_lookup header_at
sar_get_contents fuel file fname = elim (sar_lookup fuel file fname) [
  | none ↦ none
  | some found ↦ some (
      found >>= λ fhdr. elim fhdr [
        | none ↦ done none
        | some o ↦ header_at file o >>= λ h. done (some h.offset)
      ])
]
