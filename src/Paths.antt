-- ===== src/Paths.antt =====
-- File names as the program spells them: the strings that `sprintf` writes (src/ddmin.c, src/range.c).
-- A path is a list of byte codes without the final NUL.
pub mod Apart
use Prim.Native.Char.{code}
use Prim.Native.String
use Prim.Native.String.{String}
use diy_ddmin.Base.{
  ℕ, zero, suc, ◌+◌, ◌/◌, ◌%◌, ◌≡◌, refl, Bool, true, false, ◌&&◌, List, [], ◌∷◌, ◌++◌, ltb, ◌==◌,
  if◌then◌else◌,
}

abbrev pub Bytes : Type 0
Bytes = List ℕ

abbrev pub FilePath : Type 0
FilePath = Bytes

abbrev pub codes : String → Bytes
codes String.[] = []
codes (String.◌∷◌ c s) = code c ∷ codes s

-- `strcmp(a, b) == 0`
unfoldable pub bytes_eq : Bytes → Bytes → Bool
bytes_eq [] [] = true
bytes_eq [] (y ∷ ys) = false
bytes_eq (x ∷ xs) [] = false
bytes_eq (x ∷ xs) (y ∷ ys) = (x == y) && bytes_eq xs ys

-- The digits that `%d` writes for `n`, in front of `out`; `n + 1` rounds are more than enough.
unfoldable pub digits : ℕ → ℕ → Bytes → Bytes
digits zero n out = out
digits (suc fuel) n out =
    let more = digits fuel (n / 10) ((48 + n % 10) ∷ out) in
    if ltb n 10 then (48 + n) ∷ out else more

unfoldable pub decimal : ℕ → Bytes → Bytes
unfolding digits
decimal n out = digits (suc n) n out

-- `sprintf(out_file, "./%d.part", k)`
unfoldable pub part_path : ℕ → FilePath
unfolding decimal
part_path k = 46 ∷ 47 ∷ decimal k (codes ".part")

-- `sprintf(stdout_path, "./%s.stdout", input_seq_path)`
unfoldable pub stdout_path : FilePath → FilePath
stdout_path p = 46 ∷ 47 ∷ p ++ codes ".stdout"

unfoldable pub stderr_path : FilePath → FilePath
stderr_path p = 46 ∷ 47 ∷ p ++ codes ".stderr"

part_path_test : part_path 105 ≡ codes "./105.part"
unfolding part_path
part_path_test = refl
