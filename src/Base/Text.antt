-- ===== src/Base/Text.antt =====
-- Python's `str` as the list of its code points, with the operations that the program calls.
-- `upper` maps ASCII letters; the underlyings that it is applied to are ASCII tickers.
use Prim.Native.Nat.{ℕ, ◌-◌}
use Prim.Native.Char.{code}
use Prim.Native.String.{String}
use mathlib.Core.Path.{◌≡◌}
use mathlib.Core.Logic.{◌↔◌}
use mathlib.Core.Bool.{Bool, true, false, ◌&&◌, ◌||◌}
use mathlib.Core.List.{List, [], ◌∷◌, ◌++◌, reverse, map}
use native.Mathlib.Omega.{arith}
use esscher_market.Base.Tests.{leb, ◌==◌, if◌then◌else◌}

abbrev pub Text : Type 0
Text = List ℕ

-- A text literal.
abbrev pub text : String → Text
text String.[] = []
text (String.◌∷◌ c s) = code c ∷ text s

unfoldable pub same : Text → Text → Bool
same [] [] = true
same [] (_ ∷ _) = false
same (_ ∷ _) [] = false
same (x ∷ xs) (y ∷ ys) = (x == y) && same xs ys

pub same_iff : (s t : Text) → (same s t ≡ true) ↔ (s ≡ t)
unfolding same
same_iff [] [] = ground arith
same_iff [] (_ ∷ _) = ground arith
same_iff (_ ∷ _) [] = ground arith
same_iff (x ∷ xs) (y ∷ ys) = ground (arith, same_iff xs ys)

-- `str.isspace` of one code point.
is_space : ℕ → Bool
is_space c =
    (leb 0x09 c && leb c 0x0d)
    || (leb 0x1c c && leb c 0x20)
    || (c == 0x85)
    || (c == 0xa0)
    || (c == 0x1680)
    || (leb 0x2000 c && leb c 0x200a)
    || (c == 0x2028)
    || (c == 0x2029)
    || (c == 0x202f)
    || (c == 0x205f)
    || (c == 0x3000)

drop_space : Text → Text
unfolding is_space
drop_space [] = []
drop_space (c ∷ s) = let rest = drop_space s in if is_space c then rest else c ∷ s

-- `str.strip()`.
unfoldable pub strip : Text → Text
unfolding drop_space
strip s = reverse (drop_space (reverse (drop_space s)))

upper_char : ℕ → ℕ
upper_char c = if leb b'a' c && leb c b'z' then c - 32 else c

-- `str.upper()`, over ASCII.
unfoldable pub upper : Text → Text
unfolding upper_char
upper s = map upper_char s

-- A character of "0123456789abcdef".
abbrev pub is_hex : ℕ → Bool
is_hex c = (leb b'0' c && leb c b'9') || (leb b'a' c && leb c b'f')

pub append_cancel : (p s t : Text) → p ++ s ≡ p ++ t → s ≡ t
append_cancel [] s t h = h
append_cancel (x ∷ p) s t h = append_cancel p s t (cc)
