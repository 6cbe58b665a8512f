-- ===== src/SarTool.antt =====
-- tools/sar.c: the tool that packs the initial programs into an archive, lists and unpacks it.
-- A file is the list of its bytes. An argument is the file that it names: its base name, without
-- the NUL, and its contents, if it can be opened. Memory is never short, a read returns all that is
-- asked for, and every file can be created.
pub mod Files
pub mod Headers
pub mod Pack
pub mod Create
pub mod Unpack
pub mod Search
use leoman.Base.{
  ℕ, zero, suc, ◌+◌, ◌-◌, ◌*◌, ◌/◌, ◌%◌, ◌^◌, Bool, true, false, ◌==◌, ltb, if◌then◌else◌, Option,
  none, some, List, [], ◌∷◌, ◌++◌, length, replicate, Run, done, fault, halted, ◌>>=◌, u32, bit_or,
  bit_and, not32, sub32,
}
use leoman.Sar.{SarFile, byte, header_at, fhdr_fname, sizeof_sar_header, sizeof_sar_file}

abbrev pub sar_magic : ℕ
sar_magic = 0x52415307

-- `PALIGN`
unfoldable pub palign : ℕ → ℕ
palign addr = bit_and (u32 (addr + 4096 - 1)) (not32 (4096 - 1))

-- An argument of the command.
pub record Input : Type 0 where
  pub name : List ℕ
  pub contents : Option (List ℕ)

-- `pwrite`: what is skipped over past the end reads as zeros.
unfoldable pub put_at : List ℕ → ℕ → List ℕ → List ℕ
put_at file offset [] = file
put_at [] zero (d ∷ ds) = d ∷ ds
put_at [] (suc offset) (d ∷ ds) = 0 ∷ put_at [] offset (d ∷ ds)
put_at (b ∷ file) zero (d ∷ ds) = d ∷ put_at file zero ds
put_at (b ∷ file) (suc offset) (d ∷ ds) = b ∷ put_at file offset (d ∷ ds)

-- The archive that is being written: the file, the descriptor's position, and the variables of
-- `create`.
pub record Archive : Type 0 where
  pub file : List ℕ
  pub position : ℕ
  pub last_file_offset : ℕ
  pub last_fhdr_addr : ℕ

unfoldable pub write : List ℕ → Archive → Archive
unfolding put_at
write buf a = record a { file = put_at a.file a.position buf; position = a.position + length buf }

unfoldable pub pwrite : List ℕ → ℕ → Archive → Archive
unfolding put_at
pwrite buf offset a = record a { file = put_at a.file offset buf }

-- A 32-bit word in memory, little endian.
unfoldable pub le32 : ℕ → List ℕ
le32 n = n % 256 ∷ n / 256 % 256 ∷ n / 65536 % 256 ∷ n / 16777216 % 256 ∷ []

unfoldable pub header_bytes : SarFile → List ℕ
unfolding le32
header_bytes h = le32 h.size ++ (le32 h.offset ++ le32 h.namelen)

unfoldable pub total_size : ℕ → List Input → ℕ
total_size total [] = total
total_size total (x ∷ inputs) =
    total_size (u32 (total + sizeof_sar_file + u32 (length x.name + 1))) inputs

-- The first bytes of a file, all of them where there are fewer.
unfoldable pub read : ℕ → List ℕ → List ℕ
read zero contents = []
read (suc n) [] = []
read (suc n) (b ∷ contents) = b ∷ read n contents

-- The aligned copy of a file's contents, as many of them as the header's 32-bit size says; `memset`
-- runs away where the aligned size wraps around.
unfoldable pub buffer : List ℕ → Run (List ℕ)
unfolding palign read
buffer contents =
    let size = u32 (length contents) in
    if ltb (palign size) size
    then fault
    else done (read size contents ++ replicate (palign size - size) 0)

unfoldable pub pack_file : List ℕ → List ℕ → Archive → Run Archive
unfolding write pwrite
pack_file name contents a = do
  let size = u32 (length contents)
  let fhdr : SarFile = record {
    size = size;
    offset = a.last_file_offset;
    namelen = u32 (length name + 1);
  }
  buf ← buffer contents
  let a₁ = write (name ++ (0 ∷ [])) (write (header_bytes fhdr) a)
  let a₂ = pwrite buf a.last_file_offset a₁
  done (record a₂ {
    last_file_offset = u32 (a.last_file_offset + palign size);
    last_fhdr_addr = u32 (a.last_fhdr_addr + sizeof_sar_file + fhdr.namelen);
  })

unfoldable pub pack_loop : List Input → Archive → Run Archive
unfolding pack_file
pack_loop [] a = done a
pack_loop (x ∷ inputs) a = elim x.contents [
  | none ↦ pack_loop inputs a
  | some contents ↦ pack_file x.name contents a >>= λ a'. pack_loop inputs a'
]

-- `create`, from the archive's header on: at least one file is named.
unfoldable pub create : List Input → Run (List ℕ)
unfolding write pwrite
create inputs = do
  let a₀ : Archive = record {
    file = [];
    position = 0;
    last_file_offset = palign (u32 (total_size 0 inputs + sizeof_sar_header + sizeof_sar_file));
    last_fhdr_addr = sizeof_sar_header;
  }
  a ← pack_loop inputs (write (le32 sar_magic) a₀)
  done (pwrite (replicate sizeof_sar_file 0) a.last_fhdr_addr a).file

-- The bytes up to the NUL.
unfoldable pub c_string : List ℕ → Run (List ℕ)
c_string [] = fault
c_string (b ∷ bs) = let rest = c_string bs in if b == 0 then done [] else rest >>= λ s. done (b ∷ s)

unfoldable pub bytes : List ℕ → ℕ → ℕ → Run (List ℕ)
bytes file i zero = done []
bytes file i (suc n) = byte file i >>= λ b. bytes file (i + 1) n >>= λ bs. done (b ∷ bs)

-- The loop of `extract` from the header at `fhdr` on: the names and the contents of the files that
-- it writes. It is `none` when it runs out of fuel.
unfoldable pub extract_loop : ℕ → List ℕ → ℕ → Option (Run (List (List ℕ × List ℕ)))
unfolding header_at fhdr_fname c_string bytes
extract_loop zero file fhdr = none
extract_loop (suc fuel) file fhdr = elim (header_at file fhdr) [
  | fault ↦ some fault
  | halted ↦ some halted
  | done h ↦ elim (bit_or (bit_or h.size h.offset) h.namelen == 0) [
    | true ↦ some (done [])
    | false ↦ elim (extract_loop fuel file (u32 (fhdr + sizeof_sar_file + h.namelen))) [
      | none ↦ none
      | some rest ↦ some (
          c_string (fhdr_fname file (fhdr + sizeof_sar_file)) >>= λ name.
          bytes file h.offset h.size >>= λ contents.
          rest >>= λ files. done ((name, contents) ∷ files))
    ]
  ]
]

unfoldable pub extract : ℕ → List ℕ → Option (Run (List (List ℕ × List ℕ)))
unfolding extract_loop
extract fuel file = extract_loop fuel file sizeof_sar_header

-- The loop of `list`: the lines that it prints, each with the name, the size and the offset.
unfoldable pub list_loop : ℕ → List ℕ → ℕ → Option (Run (List (List ℕ × ℕ × ℕ)))
unfolding header_at fhdr_fname c_string
list_loop zero file fhdr = none
list_loop (suc fuel) file fhdr = elim (header_at file fhdr) [
  | fault ↦ some fault
  | halted ↦ some halted
  | done h ↦ elim (bit_or (bit_or h.size h.offset) h.namelen == 0) [
    | true ↦ some (done [])
    | false ↦ elim (list_loop fuel file (u32 (fhdr + sizeof_sar_file + h.namelen))) [
      | none ↦ none
      | some rest ↦ some (
          c_string (fhdr_fname file (fhdr + sizeof_sar_file)) >>= λ name.
          rest >>= λ files. done ((name, h.size, h.offset) ∷ files))
    ]
  ]
]

-- `commands` and `cmd_lookup`.
pub data Command : Type 0 where
  create_archive : Command
  extract_archive : Command
  list_archive : Command

unfoldable pub cmd_lookup : ℕ → Option Command
cmd_lookup ch =
    if ch == b'c'
    then some create_archive
    else if ch == b'e'
    then some extract_archive
    else if ch == b'l'
    then some list_archive
    else none
