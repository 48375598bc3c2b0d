-- ===== src/Prelude/Digits.antt =====
-- Python's `\d`, and the decimal print of a number.
use normeon_german_technical.Prelude.Tests.{Text, leb, ltb, if◌then◌else◌}
use Prim.Native.Nat.{ℕ, zero, suc, ◌+◌, ◌-◌, ◌*◌, ◌/◌, ◌%◌, ◌≤◌}
use mathlib.Core.Path.{◌≡◌, refl, ap, ◌∙◌, sym}
use mathlib.Core.Bool.{Bool, false, ◌||◌, ◌&&◌}
use mathlib.Core.List.{List, [], ◌∷◌, ◌++◌}
use native.Mathlib.Omega.{arith}

-- The zeros of the decimal digits of Unicode 15.1: each begins a run of ten.
abbrev zeros : List ℕ
zeros =
    0x30 ∷ 0x660 ∷ 0x6f0 ∷ 0x7c0 ∷ 0x966 ∷ 0x9e6 ∷ 0xa66 ∷ 0xae6 ∷ 0xb66 ∷ 0xbe6 ∷ 0xc66 ∷ 0xce6
    ∷ 0xd66 ∷ 0xde6 ∷ 0xe50 ∷ 0xed0 ∷ 0xf20 ∷ 0x1040 ∷ 0x1090 ∷ 0x17e0 ∷ 0x1810 ∷ 0x1946 ∷ 0x19d0
    ∷ 0x1a80 ∷ 0x1a90 ∷ 0x1b50 ∷ 0x1bb0 ∷ 0x1c40 ∷ 0x1c50 ∷ 0xa620 ∷ 0xa8d0 ∷ 0xa900 ∷ 0xa9d0
    ∷ 0xa9f0 ∷ 0xaa50 ∷ 0xabf0 ∷ 0xff10 ∷ 0x104a0 ∷ 0x10d30 ∷ 0x11066 ∷ 0x110f0 ∷ 0x11136 ∷ 0x111d0
    ∷ 0x112f0 ∷ 0x11450 ∷ 0x114d0 ∷ 0x11650 ∷ 0x116c0 ∷ 0x11730 ∷ 0x118e0 ∷ 0x11950 ∷ 0x11c50
    ∷ 0x11d50 ∷ 0x11da0 ∷ 0x11f50 ∷ 0x16a60 ∷ 0x16ac0 ∷ 0x16b50 ∷ 0x1d7ce ∷ 0x1d7d8 ∷ 0x1d7e2
    ∷ 0x1d7ec ∷ 0x1d7f6 ∷ 0x1e140 ∷ 0x1e2f0 ∷ 0x1e4f0 ∷ 0x1e950 ∷ 0x1fbf0 ∷ []

in_runs : ℕ → List ℕ → Bool
in_runs c [] = false
in_runs c (z ∷ zs) = (leb z c && ltb c (z + 10)) || in_runs c zs

unfoldable pub is_digit : ℕ → Bool
unfolding in_runs
is_digit c = in_runs c zeros

-- The digits of `n`, if `n` is at most `fuel`.
unfoldable pub show_from : ℕ → ℕ → Text
show_from zero n = (48 + n % 10) ∷ []
show_from (suc fuel) n =
    let rest = show_from fuel (n / 10) ++ (48 + n % 10) ∷ [] in
    if ltb n 10 then (48 + n) ∷ [] else rest

-- `str(n)`
unfoldable pub show : ℕ → Text
unfolding show_from
show n = show_from n n

-- The number that a text of ASCII digits stands for.
abbrev pub value : ℕ → Text → ℕ
value n [] = n
value n (c ∷ text) = value (n * 10 + (c - 48)) text

value-append : (n c : ℕ) (text : Text) → value n (text ++ c ∷ []) ≡ value n text * 10 + (c - 48)
value-append n c [] = refl
value-append n c (d ∷ text) = value-append (n * 10 + (d - 48)) c text

value-show_from : (fuel n : ℕ) → n ≤ fuel → value 0 (show_from fuel n) ≡ n
unfolding show_from
value-show_from zero n h = omega arith
value-show_from (suc fuel) n h =
    ground
      (arith, value-show_from fuel (n / 10), value-append 0 (48 + n % 10) (show_from fuel (n / 10)))

-- The print of a number determines it.
pub value-show : (n : ℕ) → value 0 (show n) ≡ n
unfolding show
value-show n = value-show_from n n (omega arith)

pub show_injective : (n m : ℕ) → show n ≡ show m → n ≡ m
show_injective n m h = sym (value-show n) ∙ (ap (value 0) h ∙ value-show m)
