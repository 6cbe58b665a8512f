-- ===== src/SarTool/Unpack.antt =====
-- tools/sar.c: what `extract` gets out of an archive that `create` made.
use leoman.Base.{
  ℕ, zero, suc, ◌+◌, ◌^◌, ◌≤◌, ◌<◌, ◌≡◌, refl, arith, false, ◌==◌, Option, none, some, List, [],
  ◌∷◌, length, replicate, done, u32, bit_or,
}
use leoman.SarTool.{Input, create, le32, header_bytes, extract_loop, extract}
use leoman.SarTool.Headers.{header_at_lem, c_string_lem, bytes_lem, IsName, bit_or-nonzero}
use leoman.SarTool.Create.{contents_start, create-IsPacked, headers-fit}
use leoman.SarTool.Pack.{
  readable, headers_end, contents_end, pages_of, fhdr_of, IsPacked, headers_end-le, contents_end-le,
}

abbrev pub AreNamed : List (List ℕ × List ℕ) → Type 0
AreNamed [] = Unit {0}
AreNamed ((name, contents) ∷ files) = IsName name × AreNamed files

pub header_bytes-zero : header_bytes (record { size = 0; offset = 0; namelen = 0 }) ≡ replicate 12 0
unfolding header_bytes le32
header_bytes-zero = refl

extract_loop_lem :
    (files : List (List ℕ × List ℕ)) (fuel : ℕ) (file : List ℕ) (c p : ℕ)
    → length files < fuel
    → AreNamed files
    → headers_end c files < 2 ^ 32
    → contents_end p files < 2 ^ 32
    → IsPacked file files c p
    → extract_loop fuel file c ≡ some (done files)
unfolding extract_loop
extract_loop_lem files zero file c p enough named hl pl packed = absurd (omega arith)
extract_loop_lem [] (suc fuel) file c p enough named hl pl packed =
    let h =
      header_at_lem file c (record { size = 0; offset = 0; namelen = 0 }) (omega arith)
        (omega arith) (omega arith) (rw header_bytes-zero packed) in
    rw (h, extract_loop) refl
extract_loop_lem ((name, contents) ∷ files) (suc fuel) file c p enough (ok, named) hl pl
      (header, string, body, packed) =
    let headers = headers_end-le (c + 12 + (length name + 1)) files in
    let after = contents_end-le (p + pages_of (length contents)) files in
    let h =
      header_at_lem file c (fhdr_of p name contents) (omega arith) (omega arith) (omega arith)
        header in
    let goes_on : (bit_or (bit_or (length contents) p) (length name + 1) == 0) ≡ false = ground (
      arith,
      bit_or-nonzero (bit_or (length contents) p) (length name + 1) (omega arith) (omega arith),
    ) in
    let next : u32 (c + 12 + (length name + 1)) ≡ c + 12 + (length name + 1) = omega arith in
    let rest =
      extract_loop_lem files fuel file (c + 12 + (length name + 1)) (p + pages_of (length contents))
        (omega arith) named hl pl packed in
    rw
      (
        h,
        extract_loop,
        goes_on,
        next,
        rest,
        c_string_lem name file (c + 12) ok string,
        bytes_lem contents file p body,
      )
      refl

pub length-readable : (inputs : List Input) → length (readable inputs) ≤ length inputs
unfolding readable
length-readable [] = omega arith
length-readable (x ∷ inputs) = by_contents x.contents (length-readable inputs)
  where
    by_contents :
        (o : Option (List ℕ))
        → length (readable inputs) ≤ length inputs
        → length (elim o as (λ _. List (List ℕ × List ℕ)) [
          | none ↦ readable inputs
          | some contents ↦ (x.name, contents) ∷ readable inputs
        ])
          ≤ suc (length inputs)
    by_contents none rest = omega arith
    by_contents (some contents) rest = omega arith

-- From an archive that create makes of any arguments, whose names contain no NUL and which fit
-- into 2 ^ 32 bytes with the contents aligned to pages, extract gets back the names and the
-- contents of exactly those files that could be read, in their order.
pub extract-create :
    (inputs : List Input)
    → AreNamed (readable inputs)
    → contents_end (contents_start inputs) (readable inputs) < 2 ^ 32
    → (archive : List ℕ) × (create inputs ≡ done archive)
      × (extract (suc (length inputs)) archive ≡ some (done (readable inputs)))
unfolding extract
extract-create inputs named small =
    let start = contents_end-le (contents_start inputs) (readable inputs) in
    let (archive, made, packed) = create-IsPacked inputs small in
    (
      archive,
      made,
      extract_loop_lem (readable inputs) (suc (length inputs)) archive 4 (contents_start inputs)
          (omega (arith, length-readable inputs)) named (omega (arith, headers-fit 4 inputs)) small
          packed,
    )
