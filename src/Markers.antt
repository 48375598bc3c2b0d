-- ===== src/Markers.antt =====
-- The pattern `\[S\d+\]` of backend/src/app/domain/citations.py and context.py.
pub mod Laws
use normeon_german_technical.Prelude.{
  ℕ, zero, suc, ◌+◌, Text, Bool, true, false, ◌&&◌, Option, none, some, List, [], ◌∷◌, ◌++◌, length,
  ◌==◌, nat_eq, if◌then◌else◌,
}
use normeon_german_technical.Prelude.Digits.{is_digit}
use mathlib.Core.Option

-- `\d+\]`: the digits, of which `some_seen` says whether there has been one.
unfoldable pub digits_close : Bool → Text → Option Text
unfolding is_digit nat_eq
digits_close some_seen [] = none
digits_close some_seen (c ∷ text) =
    let rest = digits_close true text in
    if is_digit c then Option.map (◌∷◌ c) rest else if some_seen && c == b']' then some [] else none

-- `S\d+\]`
unfoldable pub marker_close : Text → Option Text
unfolding digits_close
marker_close [] = none
marker_close (c ∷ text) = if c == b'S' then Option.map (◌∷◌ c) (digits_close false text) else none

-- A match of the whole pattern at the start: the marker between the brackets.
unfoldable pub match_marker : Text → Option Text
unfolding marker_close
match_marker [] = none
match_marker (c ∷ text) = if c == b'[' then marker_close text else none

abbrev pub cons_marker : Option Text → List Text → List Text
cons_marker none markers = markers
cons_marker (some marker) markers = marker ∷ markers

-- `[m.group()[1:-1] for m in _MARKER.finditer(text)]`. A match holds no second `[`, so to look for
-- the next one behind it is to look for it at the next character.
unfoldable pub find_markers : Text → List Text
unfolding match_marker
find_markers [] = []
find_markers (c ∷ text) = cons_marker (match_marker (c ∷ text)) (find_markers text)

-- `_FORGED_MARKER.sub(r"(\1)", text)`, with the number of characters to skip that the last match
-- still covers.
unfoldable pub defang_from : ℕ → Text → Text
unfolding match_marker
defang_from skip [] = []
defang_from zero (c ∷ text) = elim (match_marker (c ∷ text)) [
  | none ↦ c ∷ defang_from zero text
  | some marker ↦ b'(' ∷ (marker ++ b')' ∷ defang_from (length marker + 1) text)
]
defang_from (suc skip) (c ∷ text) = defang_from skip text

unfoldable pub defang : Text → Text
unfolding defang_from
defang = defang_from 0
