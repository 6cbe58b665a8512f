-- ===== src/SarTool/Pack.antt =====
-- tools/sar.c: where `create` puts the headers, the names and the contents.
use mathlib.Core.Path.{fun_ext}
use leoman.Base.{
  ℕ, ◌+◌, ◌-◌, ◌*◌, ◌/◌, ◌^◌, ◌≤◌, ◌<◌, ◌≡◌, refl, ap, ◌∙◌, arith, false, ltb, Option, none, some,
  List, [], ◌∷◌, ◌++◌, length, length-append, replicate, length-replicate, Run, done, ◌>>=◌, u32,
  inl, inr, ◌⊎◌, Sum-elim,
}
use leoman.Address.{palignup, palignup_lem}
use leoman.Sar.{SarFile}
use leoman.SarTool.{
  Input, Archive, put_at, palign, pwrite, header_bytes, read, buffer, pack_file, pack_loop,
}
use leoman.SarTool.Files.{IsAt, IsAt-left, put_at-IsAt, IsAt-put_at}
use leoman.SarTool.Headers.{length-header_bytes}

abbrev pub pages_of : ℕ → ℕ
pages_of n = (n + 4095) / 4096 * 4096

pub palign_lem : (n : ℕ) → n + 4095 < 2 ^ 32 → palign n ≡ pages_of n
unfolding palign palignup
palign_lem n l = palignup_lem n ∙ omega arith

-- The files of the arguments that can be read: their names and contents.
unfoldable pub readable : List Input → List (List ℕ × List ℕ)
readable [] = []
readable (x ∷ inputs) = elim x.contents [
  | none ↦ readable inputs
  | some contents ↦ (x.name, contents) ∷ readable inputs
]

-- The ends of the headers and of the contents that the loop writes.
abbrev pub headers_end : ℕ → List (List ℕ × List ℕ) → ℕ
headers_end c [] = c
headers_end c ((name, contents) ∷ files) = headers_end (c + 12 + (length name + 1)) files

abbrev pub contents_end : ℕ → List (List ℕ × List ℕ) → ℕ
contents_end p [] = p
contents_end p ((name, contents) ∷ files) = contents_end (p + pages_of (length contents)) files

abbrev pub fhdr_of : ℕ → List ℕ → List ℕ → SarFile
fhdr_of p name contents = record { size = length contents; offset = p; namelen = length name + 1 }

-- The headers and the names stand from `c` on, the contents from `p` on, and a terminator behind
-- the headers.
abbrev pub IsPacked : List ℕ → List (List ℕ × List ℕ) → ℕ → ℕ → Type 0
IsPacked file [] c p = IsAt file c (replicate 12 0)
IsPacked file ((name, contents) ∷ files) c p =
    IsAt file c (header_bytes (fhdr_of p name contents))
    × IsAt file (c + 12) (name ++ (0 ∷ []))
    × IsAt file p contents
    × IsPacked file files (c + 12 + (length name + 1)) (p + pages_of (length contents))

unfoldable pub pack_all : List (List ℕ × List ℕ) → Archive → Run Archive
pack_all [] a = done a
pack_all ((name, contents) ∷ files) a = pack_file name contents a >>= λ a'. pack_all files a'

pub pack_loop-readable :
    (inputs : List Input) (a : Archive) → pack_loop inputs a ≡ pack_all (readable inputs) a
unfolding pack_loop readable pack_all
pack_loop-readable [] a = refl
pack_loop-readable (x ∷ inputs) a = by_contents x.contents (λ a'. pack_loop-readable inputs a')
  where
    by_contents :
        (o : Option (List ℕ))
        → ((a' : Archive) → pack_loop inputs a' ≡ pack_all (readable inputs) a')
        → elim o [
          | none ↦ pack_loop inputs a
          | some contents ↦ pack_file x.name contents a >>= λ a'. pack_loop inputs a'
        ]
          ≡ pack_all
              (elim o [
                | none ↦ readable inputs
                | some contents ↦ (x.name, contents) ∷ readable inputs
              ])
              a
    by_contents none rest = rest a
    by_contents (some contents) rest = ap (λ k. pack_file x.name contents a >>= k) (fun_ext rest)

pub headers_end-le : (c : ℕ) (files : List (List ℕ × List ℕ)) → c ≤ headers_end c files
headers_end-le c [] = omega arith
headers_end-le c ((name, contents) ∷ files) =
    omega (arith, headers_end-le (c + 12 + (length name + 1)) files)

pub contents_end-le : (p : ℕ) (files : List (List ℕ × List ℕ)) → p ≤ contents_end p files
contents_end-le p [] = omega arith
contents_end-le p ((name, contents) ∷ files) =
    omega (arith, contents_end-le (p + pages_of (length contents)) files)

-- The archive after one file.
unfoldable packed_one : List ℕ → List ℕ → Archive → Archive
packed_one name contents a =
    let c = a.position in
    let p = a.last_file_offset in
    let size = length contents in
    let headed =
      put_at (put_at a.file c (header_bytes (fhdr_of p name contents))) (c + 12)
        (name ++ (0 ∷ [])) in
    record {
      file = put_at headed p (contents ++ replicate (palign size - size) 0);
      position = c + 12 + (length name + 1);
      last_file_offset = p + pages_of size;
      last_fhdr_addr = c + 12 + (length name + 1);
    }

read_all : (contents : List ℕ) → read (length contents) contents ≡ contents
unfolding read
read_all [] = refl
read_all (b ∷ contents) = ap (λ (l : List ℕ). b ∷ l) (read_all contents)

buffer_lem :
    (contents : List ℕ)
    → length contents + 4095 < 2 ^ 32
    → buffer contents ≡ done (contents ++ replicate (palign (length contents) - length contents) 0)
unfolding buffer
buffer_lem contents l =
    let w : u32 (length contents) ≡ length contents = omega arith in
    let whole : ltb (palign (length contents)) (length contents) ≡ false =
      ground (arith, palign_lem (length contents) l) in
    rw (w, whole, read_all contents) refl

pack_file_lem :
    (name contents : List ℕ) (a : Archive)
    → a.last_fhdr_addr ≡ a.position
    → a.position + 12 + (length name + 1) < 2 ^ 32
    → a.last_file_offset + pages_of (length contents) < 2 ^ 32
    → pack_file name contents a ≡ done (packed_one name contents a)
unfolding pack_file packed_one
pack_file_lem name contents a same small room =
    let size = length contents in
    let w : u32 size ≡ size = omega arith in
    let n : u32 (length name + 1) ≡ length name + 1 = omega arith in
    let next : u32 (a.position + 12 + (length name + 1)) ≡ a.position + 12 + (length name + 1) =
      omega arith in
    let after : u32 (a.last_file_offset + pages_of size) ≡ a.last_file_offset + pages_of size =
      omega arith in
    let aligned = palign_lem size (omega arith) in
    rw
      (
        buffer_lem contents (omega arith),
        w,
        n,
        length-header_bytes (fhdr_of a.last_file_offset name contents),
        length-append name (0 ∷ []),
        same,
        aligned,
        next,
        after,
      )
      refl

-- What the last write leaves of the file.
unfoldable pub finish : Archive → List ℕ
unfolding pwrite
finish a = (pwrite (replicate 12 0) a.last_fhdr_addr a).file

-- Data that stand before the headers to come, or among the contents that are there.
abbrev pub IsKept : List ℕ → List ℕ → ℕ → ℕ → ℕ → Type 0
IsKept file file' c total p =
    (o : ℕ) (ds : List ℕ)
    → IsAt file o ds
    → (o + length ds ≤ c) ⊎ ((total ≤ o) × (o + length ds ≤ p))
    → IsAt file' o ds

pub pack_all_lem :
    (files : List (List ℕ × List ℕ)) (a : Archive) (total : ℕ)
    → a.last_fhdr_addr ≡ a.position
    → headers_end a.position files + 12 ≤ total
    → total ≤ a.last_file_offset
    → contents_end a.last_file_offset files < 2 ^ 32
    → (a' : Archive) × (pack_all files a ≡ done a')
      × IsKept a.file (finish a') a.position total a.last_file_offset
      × IsPacked (finish a') files a.position a.last_file_offset
unfolding pack_all finish packed_one
pack_all_lem [] a total same room above small = (
  a,
  refl,
  λ o ds at where_.
      IsAt-put_at a.file o ds a.last_fhdr_addr (replicate 12 0) at
        (Sum-elim where_ (λ before. inl (omega arith)) (λ behind. inr (omega (arith, behind.0)))),
  rw (← same) (put_at-IsAt a.file a.last_fhdr_addr (replicate 12 0)),
)
pack_all_lem ((name, contents) ∷ files) a total same room above small =
    let c = a.position in
    let p = a.last_file_offset in
    let hdr = header_bytes (fhdr_of p name contents) in
    let string = name ++ (0 ∷ []) in
    let padded = contents ++ replicate (palign (length contents) - length contents) 0 in
    let f₁ = put_at a.file c hdr in
    let f₂ = put_at f₁ (c + 12) string in
    let twelve : length hdr ≡ 12 = length-header_bytes (fhdr_of p name contents) in
    let chars : length string ≡ length name + 1 = length-append name (0 ∷ []) in
    let headers = headers_end-le (c + 12 + (length name + 1)) files in
    let rest = contents_end-le (p + pages_of (length contents)) files in
    let filled : length padded ≡ pages_of (length contents) = omega (
      arith,
      length-append contents (replicate (palign (length contents) - length contents) 0),
      length-replicate {0} {A = ℕ} (palign (length contents) - length contents) 0,
      palign_lem (length contents) (omega arith),
    ) in
    let (a', ran, kept, packed) =
      pack_all_lem files (packed_one name contents a) total refl room (omega arith) small in
    let stays = λ (o : ℕ) (ds : List ℕ) (at : IsAt f₂ o ds) (out : o + length ds ≤ p).
      IsAt-put_at f₂ o ds p padded at (inl out) in
    (
      a',
      ap (λ r. r >>= λ a₁. pack_all files a₁)
            (pack_file_lem name contents a same (omega arith) (omega arith))
          ∙ ran,
      λ o ds at where_.
          Sum-elim where_
            (λ before.
              kept o ds
                (stays o ds
                  (IsAt-put_at f₁ o ds (c + 12) string
                    (IsAt-put_at a.file o ds c hdr at (inl before)) (inl (omega arith)))
                  (omega arith))
                (inl (omega arith)))
            (λ behind.
              kept o ds
                (stays o ds
                  (IsAt-put_at f₁ o ds (c + 12) string
                    (IsAt-put_at a.file o ds c hdr at (inr (omega (arith, behind.0))))
                    (inr (omega (arith, behind.0))))
                  behind.1)
                (inr (behind.0, omega (arith, behind.1)))),
      (
        kept c hdr
            (stays c hdr
              (IsAt-put_at f₁ c hdr (c + 12) string (put_at-IsAt a.file c hdr) (inl (omega arith)))
              (omega arith))
            (inl (omega arith)),
        kept (c + 12) string (stays (c + 12) string (put_at-IsAt f₁ (c + 12) string) (omega arith))
            (inl (omega arith)),
        IsAt-left (finish a') p contents (replicate (palign (length contents) - length contents) 0)
            (kept p padded (put_at-IsAt f₂ p padded) (inr (above, omega arith))),
        packed,
      ),
    )
