-- ===== src/Oracle/Search.antt =====
-- `while (fgets(line, 512, fp)) if (strstr(line, err_msg)) …` over the bytes of a file.
pub mod Infix
pub mod Lines
use diy_ddmin.Base.{
  ℕ, zero, suc, ◌≡◌, refl, Bool, true, false, ◌&&◌, ◌||◌, [], ◌∷◌, ◌==◌, if◌then◌else◌, length,
}
use diy_ddmin.Paths.{Bytes, codes}

abbrev pub newline : ℕ
newline = 10

-- What `fgets` stores: at most `n` bytes, and none behind a newline.
unfoldable pub fgets_line : ℕ → Bytes → Bytes
fgets_line zero s = []
fgets_line (suc n) [] = []
fgets_line (suc n) (c ∷ s) = c ∷ (if c == newline then [] else fgets_line n s)

-- What it leaves in the file.
unfoldable pub fgets_left : ℕ → Bytes → Bytes
fgets_left zero s = s
fgets_left (suc n) [] = []
fgets_left (suc n) (c ∷ s) = if c == newline then s else fgets_left n s

-- The C string that begins an array: the bytes in front of the first NUL.
unfoldable pub c_string : Bytes → Bytes
c_string [] = []
c_string (c ∷ s) = if c == 0 then [] else c ∷ c_string s

unfoldable pub starts_with : Bytes → Bytes → Bool
starts_with [] s = true
starts_with (c ∷ m) [] = false
starts_with (c ∷ m) (d ∷ s) = (c == d) && starts_with m s

-- `strstr(s, m) != 0`
unfoldable pub strstr : Bytes → Bytes → Bool
unfolding starts_with
strstr [] m = starts_with m []
strstr (c ∷ s) m = starts_with m (c ∷ s) || strstr s m

-- The loop, with as many rounds as there are bytes: each takes one at least.
unfoldable pub scan_lines : ℕ → Bytes → Bytes → Bool
scan_lines fuel m [] = false
scan_lines zero m (c ∷ s) = false
scan_lines (suc fuel) m (c ∷ s) =
    strstr (c_string (fgets_line 511 (c ∷ s))) m || scan_lines fuel m (fgets_left 511 (c ∷ s))

unfoldable pub prints : Bytes → Bytes → Bool
unfolding scan_lines strstr c_string fgets_line fgets_left
prints m s = scan_lines (length s) m s
