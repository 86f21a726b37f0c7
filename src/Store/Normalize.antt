-- ===== src/Store/Normalize.antt =====
-- `normalize_on_conflict` and `validate_on_conflict` of persista/store/validation.py, over the code
-- points of the text.
use Prim.Native.Char.{code}
use persista.Common.{
  ℕ, ◌+◌, Bool, true, false, String, List, [], ◌∷◌, map, ◌&&◌, ◌||◌, Result, ok, err, value_error,
  leb, nat_beq, ◌≡◌, refl, if◌then◌else◌,
}
use persista.Store.Types.{OnConflict}

-- The code points of a text.
abbrev pub codes : String → List ℕ
codes String.[] = []
codes (String.◌∷◌ c s) = code c ∷ codes s

-- `str.lower` on one code point: ASCII letters, and the Kelvin sign, the one other code point whose
-- lower case is a single ASCII letter. Any other is no ASCII letter before or after.
unfoldable pub lower : ℕ → ℕ
lower c = if leb b'A' c && leb c b'Z' then c + 32 else if nat_beq c 0x212a then b'k' else c

-- What `str.strip` takes for white space.
unfoldable pub is_space : ℕ → Bool
is_space c =
    (leb 9 c && leb c 13)
    || (leb 28 c && leb c 32)
    || nat_beq c 0x85
    || nat_beq c 0xa0
    || nat_beq c 0x1680
    || (leb 0x2000 c && leb c 0x200a)
    || nat_beq c 0x2028
    || nat_beq c 0x2029
    || nat_beq c 0x202f
    || nat_beq c 0x205f
    || nat_beq c 0x3000

unfoldable pub strip_left : List ℕ → List ℕ
strip_left [] = []
strip_left (c ∷ cs) = let rest = strip_left cs in if is_space c then rest else c ∷ cs

unfoldable pub strip_right : List ℕ → List ℕ
strip_right [] = []
strip_right (c ∷ cs) = elim (strip_right cs) [
  | [] ↦ if is_space c then [] else c ∷ []
  | d ∷ ds ↦ c ∷ d ∷ ds
]

-- str.strip
abbrev pub strip : List ℕ → List ℕ
strip cs = strip_right (strip_left cs)

-- ==, on texts
unfoldable pub same : List ℕ → List ℕ → Bool
same [] [] = true
same (c ∷ cs) (d ∷ ds) = nat_beq c d && same cs ds
same _ _ = false

-- the text of each strategy
abbrev pub name : OnConflict → String
name OnConflict.raise = "raise"
name OnConflict.skip = "skip"
name OnConflict.overwrite = "overwrite"
name OnConflict.merge = "merge"

-- on_conflict in ON_CONFLICT_VALUES, with the strategy that the text stands for
unfoldable pub validate_on_conflict : List ℕ → Result OnConflict
unfolding same
validate_on_conflict on_conflict =
    if same on_conflict (codes "merge")
    then ok OnConflict.merge
    else if same on_conflict (codes "overwrite")
    then ok OnConflict.overwrite
    else if same on_conflict (codes "raise")
    then ok OnConflict.raise
    else if same on_conflict (codes "skip")
    then ok OnConflict.skip
    else err value_error

unfoldable pub normalize_on_conflict : String → Result OnConflict
unfolding lower strip_left strip_right is_space validate_on_conflict
normalize_on_conflict on_conflict = validate_on_conflict (strip (map lower (codes on_conflict)))

pub normalize-name : (c : OnConflict) → normalize_on_conflict (name c) ≡ ok c
unfolding normalize_on_conflict
normalize-name OnConflict.raise = refl
normalize-name OnConflict.skip = refl
normalize-name OnConflict.overwrite = refl
normalize-name OnConflict.merge = refl
