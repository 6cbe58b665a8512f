-- ===== src/SarTool/Create.antt =====
-- tools/sar.c: the archive that `create` writes.
use leoman.Base.{
  ℕ, ◌+◌, ◌^◌, ◌≤◌, ◌<◌, ◌≡◌, refl, ap, ◌∙◌, arith, Option, none, some, List, [], ◌∷◌, length, done,
  ◌>>=◌, u32,
}
use leoman.SarTool.{Input, Archive, put_at, pack_loop, total_size, create, le32, sar_magic}
use leoman.SarTool.Pack.{
  pages_of, palign_lem, readable, headers_end, contents_end, contents_end-le, IsPacked,
  pack_loop-readable, finish, pack_all_lem,
}

-- The room that `create` leaves for the headers.
abbrev pub headers_size : List Input → ℕ
headers_size [] = 0
headers_size (x ∷ inputs) = 12 + (length x.name + 1) + headers_size inputs

total_size_lem :
    (total : ℕ) (inputs : List Input)
    → total + headers_size inputs < 2 ^ 32
    → total_size total inputs ≡ total + headers_size inputs
unfolding total_size
total_size_lem total [] l = omega arith
total_size_lem total (x ∷ inputs) l =
    let next : u32 (total + 12 + u32 (length x.name + 1)) ≡ total + 12 + (length x.name + 1) =
      omega arith in
    rw next (total_size_lem (total + 12 + (length x.name + 1)) inputs (omega arith) ∙ omega arith)

pub headers-fit :
    (c : ℕ) (inputs : List Input) → headers_end c (readable inputs) ≤ c + headers_size inputs
unfolding readable
headers-fit c [] = omega arith
headers-fit c (x ∷ inputs) =
    by_contents x.contents (headers-fit c inputs)
      (headers-fit (c + 12 + (length x.name + 1)) inputs)
  where
    by_contents :
        (o : Option (List ℕ))
        → headers_end c (readable inputs) ≤ c + headers_size inputs
        → headers_end (c + 12 + (length x.name + 1)) (readable inputs)
          ≤ c + 12 + (length x.name + 1) + headers_size inputs
        → headers_end c (elim o [
          | none ↦ readable inputs
          | some contents ↦ (x.name, contents) ∷ readable inputs
        ])
          ≤ c + (12 + (length x.name + 1) + headers_size inputs)
    by_contents none skipped taken = omega arith
    by_contents (some contents) skipped taken = omega arith

-- The first offset of contents.
abbrev pub contents_start : List Input → ℕ
contents_start inputs = pages_of (headers_size inputs + 16)

create-finish :
    (inputs : List Input)
    → contents_start inputs < 2 ^ 32
    → create inputs ≡ (
        pack_loop inputs (record {
          file = put_at [] 0 (le32 sar_magic);
          position = 4;
          last_file_offset = contents_start inputs;
          last_fhdr_addr = 4;
        })
        >>= λ a. done (finish a))
unfolding create finish le32
create-finish inputs l =
    let sum : u32 (total_size 0 inputs + 4 + 12) ≡ headers_size inputs + 16 =
      omega (arith, total_size_lem 0 inputs (omega arith)) in
    rw (sum, palign_lem (headers_size inputs + 16) (omega arith)) refl

pub create-IsPacked :
    (inputs : List Input)
    → contents_end (contents_start inputs) (readable inputs) < 2 ^ 32
    → (file : List ℕ) × (create inputs ≡ done file)
      × IsPacked file (readable inputs) 4 (contents_start inputs)
create-IsPacked inputs small =
    let start = contents_end-le (contents_start inputs) (readable inputs) in
    let fit = headers-fit 4 inputs in
    let a : Archive = record {
      file = put_at [] 0 (le32 sar_magic);
      position = 4;
      last_file_offset = contents_start inputs;
      last_fhdr_addr = 4;
    } in
    let (a', ran, kept, packed) =
      pack_all_lem (readable inputs) a (contents_start inputs) refl (omega arith) (omega arith)
        small in
    (
      finish a',
      create-finish inputs (omega arith)
          ∙ (ap (λ r. r >>= λ b. done (finish b)) (pack_loop-readable inputs a)
              ∙ ap (λ r. r >>= λ b. done (finish b)) ran),
      packed,
    )
