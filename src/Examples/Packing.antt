-- ===== src/Examples/Packing.antt =====
-- An archive of three arguments, one of which cannot be read.
use leoman.Base.{ℕ, ◌≡◌, arith, Option, none, some, List, [], ◌∷◌, done}
use leoman.Sar.{sar_get_contents}
use leoman.SarTool.{Input, create, extract}
use leoman.SarTool.Pack.{readable}
use leoman.SarTool.Create.{contents_start}
use leoman.SarTool.Unpack.{extract-create}
use leoman.SarTool.Search.{locate, IsContents, sar_get_contents-create}

abbrev inputs : List Input
inputs =
    record { name = 107 ∷ 98 ∷ 100 ∷ []; contents = some (1 ∷ 2 ∷ 3 ∷ []) }
    ∷ record { name = 120 ∷ []; contents = none }
    ∷ record { name = 115 ∷ 104 ∷ []; contents = some (4 ∷ 5 ∷ []) }
    ∷ []

extract-create_example :
    (archive : List ℕ) × (create inputs ≡ done archive)
    × (extract 4 archive ≡ some (done (readable inputs)))
unfolding readable
extract-create_example = extract-create inputs (omega arith) (omega arith)

sar_get_contents_example :
    (archive : List ℕ) × (create inputs ≡ done archive)
    × (found : Option ℕ) × (sar_get_contents 4 archive (115 ∷ 104 ∷ 0 ∷ []) ≡ some (done found))
    × IsContents archive (locate (115 ∷ 104 ∷ []) (readable inputs) (contents_start inputs)) found
unfolding readable
sar_get_contents_example =
    sar_get_contents-create inputs (115 ∷ 104 ∷ []) (omega arith) (omega arith) (omega arith)
