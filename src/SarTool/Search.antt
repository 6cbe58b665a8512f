-- ===== src/SarTool/Search.antt =====
-- kernel/sar.c and tools/sar.c: what the kernel finds in an archive that `create` made.
use leoman.Base.{
  ℕ, zero, suc, ◌+◌, ◌^◌, ◌<◌, ◌≡◌, refl, ap, ◌∙◌, arith, Bool, true, false, ◌&&◌, ◌==◌,
  if◌then◌else◌, Option, none, some, List, [], ◌∷◌, ◌++◌, length, get_elem?, done, u32, bit_or,
  Bool-cases, inl, inr,
}
use leoman.Dispatcher.{streq}
use leoman.Sar.{round, header_at, fhdr_fname, lookup_loop, sar_lookup, sar_get_contents}
use leoman.SarTool.{Input, create, bytes}
use leoman.SarTool.Files.{IsAt}
use leoman.SarTool.Headers.{header_at_lem, fhdr_fname-cons, bytes_lem, IsName, bit_or-nonzero}
use leoman.SarTool.Create.{contents_start, create-IsPacked, headers-fit}
use leoman.SarTool.Pack.{
  readable, headers_end, contents_end, pages_of, fhdr_of, IsPacked, headers_end-le, contents_end-le,
}
use leoman.SarTool.Unpack.{AreNamed, header_bytes-zero, length-readable}

unfoldable pub same_name : List ℕ → List ℕ → Bool
same_name [] [] = true
same_name [] (b ∷ bs) = false
same_name (a ∷ as_) [] = false
same_name (a ∷ as_) (b ∷ bs) = (a == b) && same_name as_ bs

-- The offset and the contents of the first file with the name, where the contents start at `p`.
unfoldable pub locate : List ℕ → List (List ℕ × List ℕ) → ℕ → Option (ℕ × List ℕ)
unfolding same_name
locate fname [] p = none
locate fname ((name, contents) ∷ files) p =
    if same_name name fname
    then some (p, contents)
    else locate fname files (p + pages_of (length contents))

streq_lem :
    (name fname file : List ℕ) (o : ℕ)
    → IsName name
    → IsName fname
    → IsAt file o (name ++ (0 ∷ []))
    → streq (fhdr_fname file o) (fname ++ (0 ∷ [])) ≡ done (same_name name fname)
unfolding streq same_name
streq_lem [] [] file o ok ok' at =
    rw (fhdr_fname-cons file o 0 (ap (get_elem? file) (omega arith) ∙ at 0 (omega arith))) refl
streq_lem [] (b ∷ fname) file o ok (nb, ok') at =
    let other : (0 == b) ≡ false = ground arith in
    rw
      (
        fhdr_fname-cons file o 0 (ap (get_elem? file) (omega arith) ∙ at 0 (omega arith)),
        streq,
        other,
      )
      refl
streq_lem (a ∷ name) [] file o (na, ok) ok' at =
    let other : (a == 0) ≡ false = ground arith in
    rw
      (
        fhdr_fname-cons file o a (ap (get_elem? file) (omega arith) ∙ at 0 (omega arith)),
        streq,
        other,
      )
      refl
streq_lem (a ∷ name) (b ∷ fname) file o (na, ok) (nb, ok') at =
    let here = fhdr_fname-cons file o a (ap (get_elem? file) (omega arith) ∙ at 0 (omega arith)) in
    let rest =
      streq_lem name fname file (o + 1) ok ok'
        (λ i l. ap (get_elem? file) (omega arith) ∙ at (suc i) (omega arith)) in
    let goes_on : (a == 0) ≡ false = ground arith in
    elim (Bool-cases (a == b)) [
      | inl e ↦ rw (here, streq, e, goes_on) rest
      | inr e ↦ rw (here, streq, e) refl
    ]

-- What the search finds, and what stands there.
abbrev IsFound : List ℕ → Option (ℕ × List ℕ) → Option ℕ → Type 0
IsFound file spec none = spec ≡ none
IsFound file spec (some o) =
    (p : ℕ) × (name : List ℕ) × (contents : List ℕ) × (spec ≡ some (p, contents))
    × (header_at file o ≡ done (fhdr_of p name contents))
    × IsAt file p contents

lookup_loop_lem :
    (files : List (List ℕ × List ℕ)) (fuel : ℕ) (file fname : List ℕ) (c p : ℕ)
    → length files < fuel
    → AreNamed files
    → IsName fname
    → headers_end c files < 2 ^ 32
    → contents_end p files < 2 ^ 32
    → IsPacked file files c p
    → (r : Option ℕ) × (lookup_loop fuel file (fname ++ (0 ∷ [])) c ≡ some (done r))
      × IsFound file (locate fname files p) r
unfolding lookup_loop round locate
lookup_loop_lem files zero file fname c p enough named ok hl pl packed = absurd (omega arith)
lookup_loop_lem [] (suc fuel) file fname c p enough named ok hl pl packed =
    let h =
      header_at_lem file c (record { size = 0; offset = 0; namelen = 0 }) (omega arith)
        (omega arith) (omega arith) (rw header_bytes-zero packed) in
    (none, rw (h, lookup_loop) refl, refl)
lookup_loop_lem ((name, contents) ∷ files) (suc fuel) file fname c p enough (named, rest_named) ok
      hl pl (header, string, body, packed) =
    let headers = headers_end-le (c + 12 + (length name + 1)) files in
    let after = contents_end-le (p + pages_of (length contents)) files in
    let h =
      header_at_lem file c (fhdr_of p name contents) (omega arith) (omega arith) (omega arith)
        header in
    let goes_on : (bit_or (bit_or (length contents) p) (length name + 1) == 0) ≡ false = ground (
      arith,
      bit_or-nonzero (bit_or (length contents) p) (length name + 1) (omega arith) (omega arith),
    ) in
    let next : u32 (c + 12 + (length name + 1)) ≡ c + 12 + (length name + 1) = omega arith in
    let same = streq_lem name fname file (c + 12) named ok string in
    elim (Bool-cases (same_name name fname)) [
      | inl e ↦ (
        some c,
        rw (h, lookup_loop, goes_on, same, e) refl,
        (p, name, contents, rw e refl, h, body),
      )
      | inr e ↦
          let (r, ran, found) =
            lookup_loop_lem files fuel file fname (c + 12 + (length name + 1))
              (p + pages_of (length contents)) (omega arith) rest_named ok hl pl packed in
          (r, rw (h, lookup_loop, goes_on, same, e, next) ran, rw e found)
    ]

-- The offset that the search answers is that of the file looked for, whose contents are there.
abbrev pub IsContents : List ℕ → Option (ℕ × List ℕ) → Option ℕ → Type 0
IsContents archive spec none = spec ≡ none
IsContents archive spec (some p) =
    (contents : List ℕ) × (spec ≡ some (p, contents))
    × (bytes archive p (length contents) ≡ done contents)

-- In an archive that create makes of any arguments, whose names contain no NUL and which fit into
-- 2 ^ 32 bytes with the contents aligned to pages, the kernel's search for a name without NUL
-- ends within one header more than there are arguments: it answers the offset of the first
-- readable file with that name, at which the archive holds the file's contents, and NULL if there
-- is none.
pub sar_get_contents-create :
    (inputs : List Input) (fname : List ℕ)
    → AreNamed (readable inputs)
    → IsName fname
    → contents_end (contents_start inputs) (readable inputs) < 2 ^ 32
    → (archive : List ℕ) × (create inputs ≡ done archive)
      × (found : Option ℕ) × (sar_get_contents (suc (length inputs)) archive (fname ++ (0 ∷ []))
          ≡ some (done found))
      × IsContents archive (locate fname (readable inputs) (contents_start inputs)) found
unfolding sar_get_contents sar_lookup
sar_get_contents-create inputs fname named ok small =
    let start = contents_end-le (contents_start inputs) (readable inputs) in
    let (archive, made, packed) = create-IsPacked inputs small in
    let (r, ran, found) =
      lookup_loop_lem (readable inputs) (suc (length inputs)) archive fname 4
        (contents_start inputs) (omega (arith, length-readable inputs)) named ok
        (omega (arith, headers-fit 4 inputs)) small packed in
    by_found archive r made ran found
  where
    by_found :
        (archive : List ℕ) (r : Option ℕ)
        → create inputs ≡ done archive
        → lookup_loop (suc (length inputs)) archive (fname ++ (0 ∷ [])) 4 ≡ some (done r)
        → IsFound archive (locate fname (readable inputs) (contents_start inputs)) r
        → (archive : List ℕ) × (create inputs ≡ done archive)
          × (found : Option ℕ) × (sar_get_contents (suc (length inputs)) archive (fname ++ (0 ∷ []))
              ≡ some (done found))
          × IsContents archive (locate fname (readable inputs) (contents_start inputs)) found
    by_found archive none made ran found =
        (archive, made, none, rw (sar_get_contents, ran) refl, found)
    by_found archive (some o) made ran (p, name, contents, spec, h, body) = (
      archive,
      made,
      some p,
      rw (sar_get_contents, ran, h) refl,
      (contents, spec, bytes_lem contents archive p body),
    )
