-- ===== src/Prelude/Words.antt =====
-- `str.split()` and `str.strip()` on a list of code points.
use normeon_german_technical.Prelude.Tests.{Text, leb, if◌then◌else◌}
use Prim.Native.Nat.{ℕ}
use mathlib.Core.Bool.{Bool, ◌||◌, ◌&&◌}
use mathlib.Core.List.{List, [], ◌∷◌, ◌++◌, reverse}

-- `str.isspace` on one code point.
unfoldable pub is_space : ℕ → Bool
is_space c =
    (leb 9 c && leb c 13)
    || (leb 28 c && leb c 32)
    || (leb 0x85 c && leb c 0x85)
    || (leb 0xa0 c && leb c 0xa0)
    || (leb 0x1680 c && leb c 0x1680)
    || (leb 0x2000 c && leb c 0x200a)
    || (leb 0x2028 c && leb c 0x2029)
    || (leb 0x202f c && leb c 0x202f)
    || (leb 0x205f c && leb c 0x205f)
    || (leb 0x3000 c && leb c 0x3000)

-- An empty run of characters is no word.
abbrev pub flush : Text → List Text → List Text
flush [] words = words
flush (c ∷ word) words = (c ∷ word) ∷ words

abbrev pub split_from : Text → Text → List Text
split_from word [] = flush word []
split_from word (c ∷ text) =
    flush (if is_space c then word else [])
      (split_from (if is_space c then [] else (word ++ c ∷ [])) text)

-- `text.split()`
unfoldable pub split : Text → List Text
unfolding is_space
split = split_from []

abbrev pub lstrip : Text → Text
lstrip [] = []
lstrip (c ∷ text) = let rest = lstrip text in if is_space c then rest else c ∷ text

unfoldable pub rstrip : Text → Text
unfolding is_space
rstrip text = reverse (lstrip (reverse text))

-- `text.strip()`
unfoldable pub strip : Text → Text
unfolding rstrip
strip text = rstrip (lstrip text)

-- `separator.join(parts)`
abbrev pub join : Text → List Text → Text
join separator [] = []
join separator (part ∷ []) = part
join separator (part ∷ next ∷ parts) = part ++ (separator ++ join separator (next ∷ parts))
