-- ===== src/SarTool/Files.antt =====
-- tools/sar.c: what stands in a file after a write.
use leoman.Base.{
  ℕ, zero, suc, ◌+◌, ◌≤◌, ◌<◌, ◌≡◌, refl, ap, ◌∙◌, arith, none, some, List, [], ◌∷◌, ◌++◌, length,
  length-append, get_elem?, inl, inr, ◌⊎◌, dec_lt,
}
use leoman.SarTool.{put_at}

-- The data stand in the file from an offset on.
abbrev pub IsAt : List ℕ → ℕ → List ℕ → Type 0
IsAt file o ds = (i : ℕ) → i < length ds → get_elem? file (o + i) ≡ get_elem? ds i

pub get_elem?-none : (xs : List ℕ) (i : ℕ) → length xs ≤ i → get_elem? xs i ≡ none
get_elem?-none [] i l = refl
get_elem?-none (x ∷ xs) zero l = absurd (omega arith)
get_elem?-none (x ∷ xs) (suc i) l = get_elem?-none xs i (omega arith)

pub get_elem?-some : (xs : List ℕ) (i : ℕ) → i < length xs → (x : ℕ) × (get_elem? xs i ≡ some x)
get_elem?-some [] i l = absurd (omega arith)
get_elem?-some (x ∷ xs) zero l = (x, refl)
get_elem?-some (x ∷ xs) (suc i) l = get_elem?-some xs i (omega arith)

get_elem?-put_at :
    (file : List ℕ) (o : ℕ) (ds : List ℕ) (i : ℕ)
    → i < length ds
    → (j : ℕ) → j ≡ o + i
    → get_elem? (put_at file o ds) j ≡ get_elem? ds i
unfolding put_at
get_elem?-put_at file o [] i l j e = absurd (omega arith)
get_elem?-put_at [] zero (d ∷ ds) i l j e = ap (get_elem? (d ∷ ds)) (omega arith)
get_elem?-put_at [] (suc o) (d ∷ ds) i l zero e = absurd (omega arith)
get_elem?-put_at [] (suc o) (d ∷ ds) i l (suc j) e =
    get_elem?-put_at [] o (d ∷ ds) i l j (omega arith)
get_elem?-put_at (b ∷ file) zero (d ∷ ds) zero l zero e = refl
get_elem?-put_at (b ∷ file) zero (d ∷ ds) zero l (suc j) e = absurd (omega arith)
get_elem?-put_at (b ∷ file) zero (d ∷ ds) (suc i) l zero e = absurd (omega arith)
get_elem?-put_at (b ∷ file) zero (d ∷ ds) (suc i) l (suc j) e =
    get_elem?-put_at file zero ds i (omega arith) j (omega arith)
get_elem?-put_at (b ∷ file) (suc o) (d ∷ ds) i l zero e = absurd (omega arith)
get_elem?-put_at (b ∷ file) (suc o) (d ∷ ds) i l (suc j) e =
    get_elem?-put_at file o (d ∷ ds) i l j (omega arith)

-- Elsewhere in the file nothing changes.
get_elem?-put_at_ne :
    (file : List ℕ) (o : ℕ) (ds : List ℕ) (j : ℕ)
    → j < length file
    → (j < o) ⊎ (o + length ds ≤ j)
    → get_elem? (put_at file o ds) j ≡ get_elem? file j
unfolding put_at
get_elem?-put_at_ne file o [] j l out = refl
get_elem?-put_at_ne [] zero (d ∷ ds) j l out = absurd (omega arith)
get_elem?-put_at_ne [] (suc o) (d ∷ ds) j l out = absurd (omega arith)
get_elem?-put_at_ne (b ∷ file) zero (d ∷ ds) zero l out = absurd (omega arith)
get_elem?-put_at_ne (b ∷ file) zero (d ∷ ds) (suc j) l out =
    get_elem?-put_at_ne file zero ds j (omega arith) (inr (omega arith))
get_elem?-put_at_ne (b ∷ file) (suc o) (d ∷ ds) zero l out = refl
get_elem?-put_at_ne (b ∷ file) (suc o) (d ∷ ds) (suc j) l (inl before) =
    get_elem?-put_at_ne file o (d ∷ ds) j (omega arith) (inl (omega arith))
get_elem?-put_at_ne (b ∷ file) (suc o) (d ∷ ds) (suc j) l (inr after) =
    get_elem?-put_at_ne file o (d ∷ ds) j (omega arith) (inr (omega arith))

pub put_at-IsAt : (file : List ℕ) (o : ℕ) (ds : List ℕ) → IsAt (put_at file o ds) o ds
put_at-IsAt file o ds i l = get_elem?-put_at file o ds i l (o + i) refl

pub IsAt-lt :
    (file : List ℕ) (o : ℕ) (ds : List ℕ) (i : ℕ)
    → IsAt file o ds
    → i < length ds
    → o + i < length file
IsAt-lt file o ds i at l = elim (dec_lt (o + i) (length file)) [
  | yes inside ↦ inside
  | no outside ↦
      let (x, e) = get_elem?-some ds i l in
      let gone = get_elem?-none file (o + i) (omega arith) in let here = at i l in absurd (cc)
]

-- What a write does not touch stays.
pub IsAt-put_at :
    (file : List ℕ) (o : ℕ) (ds : List ℕ) (o' : ℕ) (ds' : List ℕ)
    → IsAt file o ds
    → (o + length ds ≤ o') ⊎ (o' + length ds' ≤ o)
    → IsAt (put_at file o' ds') o ds
IsAt-put_at file o ds o' ds' at (inl before) i l =
    get_elem?-put_at_ne file o' ds' (o + i) (IsAt-lt file o ds i at l) (inl (omega arith)) ∙ at i l
IsAt-put_at file o ds o' ds' at (inr after) i l =
    get_elem?-put_at_ne file o' ds' (o + i) (IsAt-lt file o ds i at l) (inr (omega arith)) ∙ at i l

pub get_elem?-append_left :
    (xs ys : List ℕ) (i : ℕ) → i < length xs → get_elem? (xs ++ ys) i ≡ get_elem? xs i
get_elem?-append_left [] ys i l = absurd (omega arith)
get_elem?-append_left (x ∷ xs) ys zero l = refl
get_elem?-append_left (x ∷ xs) ys (suc i) l = get_elem?-append_left xs ys i (omega arith)

get_elem?-append_right :
    (xs ys : List ℕ) (i j : ℕ) → j ≡ length xs + i → get_elem? (xs ++ ys) j ≡ get_elem? ys i
get_elem?-append_right [] ys i j e = ap (get_elem? ys) (omega arith)
get_elem?-append_right (x ∷ xs) ys i zero e = absurd (omega arith)
get_elem?-append_right (x ∷ xs) ys i (suc j) e = get_elem?-append_right xs ys i j (omega arith)

-- A part of the data.
pub IsAt-left : (file : List ℕ) (o : ℕ) (xs ys : List ℕ) → IsAt file o (xs ++ ys) → IsAt file o xs
IsAt-left file o xs ys at i l =
    at i (omega (arith, length-append xs ys)) ∙ get_elem?-append_left xs ys i l

pub IsAt-right :
    (file : List ℕ) (o : ℕ) (xs ys : List ℕ) → IsAt file o (xs ++ ys) → IsAt file (o + length xs) ys
IsAt-right file o xs ys at i l =
    ap (get_elem? file) (omega arith)
    ∙ (at (length xs + i) (omega (arith, length-append xs ys))
        ∙ get_elem?-append_right xs ys i (length xs + i) refl)
