-- ===== src/Base/Text.antt =====
-- Texts: what the program uses of Python's `str`.
use Prim.Native.Nat.{ℕ, zero, suc, ◌+◌, ◌-◌, ◌*◌, ◌/◌, ◌%◌}
use Prim.Native.Char.{code}
use Prim.Native.String.{String, ◌++◌ as ◌<>◌}
use mathlib.Core.Bool.{Bool, true, false, ◌&&◌, ◌||◌}
use mathlib.Core.Option.{Option, none, some}
use mathlib.Core.List.{List, [], ◌∷◌, reverse}
use mind_runtime.Base.Tests.{leb, nat_eqb, if◌then◌else◌}

-- The characters that `str.strip` takes off.
abbrev pub is_space : ℕ → Bool
is_space c =
    (leb 9 c && leb c 13)
    || (leb 28 c && leb c 32)
    || nat_eqb c 133
    || nat_eqb c 160
    || nat_eqb c 5760
    || (leb 8192 c && leb c 8202)
    || nat_eqb c 8232
    || nat_eqb c 8233
    || nat_eqb c 8239
    || nat_eqb c 8287
    || nat_eqb c 12288

-- `not value.strip()`
unfoldable pub is_blank : String → Bool
is_blank String.[] = true
is_blank (String.◌∷◌ c s) = is_space (code c) && is_blank s

-- `value.partition(c)`: the text before the first `c`, whether there is one, and the text after it.
unfoldable pub partition : ℕ → String → String × Bool × String
partition d String.[] = ("", false, "")
partition d (String.◌∷◌ c s) =
    let (before, found, after) = partition d s in
    if nat_eqb (code c) d then ("", true, s) else (String.◌∷◌ c before, found, after)

-- `value.rpartition(c)`, with the text before the last `c` first; the whole text is last if there
-- is no `c`.
unfoldable pub rpartition : ℕ → String → String × Bool × String
rpartition d String.[] = ("", false, "")
rpartition d (String.◌∷◌ c s) =
    let (before, found, after) = rpartition d s in
    if found
    then (String.◌∷◌ c before, true, after)
    else if nat_eqb (code c) d
    then ("", true, s)
    else ("", false, String.◌∷◌ c s)

unfoldable pub digit_text : ℕ → String
digit_text zero = "0"
digit_text (suc zero) = "1"
digit_text (suc (suc zero)) = "2"
digit_text (suc (suc (suc zero))) = "3"
digit_text (suc (suc (suc (suc zero)))) = "4"
digit_text (suc (suc (suc (suc (suc zero))))) = "5"
digit_text (suc (suc (suc (suc (suc (suc zero)))))) = "6"
digit_text (suc (suc (suc (suc (suc (suc (suc zero))))))) = "7"
digit_text (suc (suc (suc (suc (suc (suc (suc (suc zero)))))))) = "8"
digit_text _ = "9"

unfoldable pub decimal_from : ℕ → ℕ → String
decimal_from zero n = ""
decimal_from (suc f) n =
    let rest = decimal_from f (n / 10) in
    if leb 10 n then rest <> digit_text (n % 10) else digit_text n

-- `str(n)`; a number has fewer digits than it counts, so the fuel is enough.
unfoldable pub decimal : ℕ → String
unfolding decimal_from digit_text
decimal n = decimal_from (suc n) n

-- The code points of a text.
abbrev pub codes : String → List ℕ
codes String.[] = []
codes (String.◌∷◌ c s) = code c ∷ codes s

unfoldable pub lstrip : List ℕ → List ℕ
lstrip [] = []
lstrip (c ∷ s) = let rest = lstrip s in if is_space c then rest else c ∷ s

unfoldable pub strip : List ℕ → List ℕ
unfolding lstrip
strip s = reverse (lstrip (reverse (lstrip s)))

-- `text[len(prefix):]` if `text.startswith(prefix)`.
unfoldable pub after_prefix : List ℕ → List ℕ → Option (List ℕ)
after_prefix [] s = some s
after_prefix (p ∷ ps) [] = none
after_prefix (p ∷ ps) (c ∷ s) = let rest = after_prefix ps s in if nat_eqb p c then rest else none

-- The zeros of the scripts whose digits `\d` matches and `int` reads (Unicode category Nd).
abbrev digit_zeros : List ℕ
digit_zeros =
    0x30 ∷ 0x660 ∷ 0x6f0 ∷ 0x7c0 ∷ 0x966 ∷ 0x9e6 ∷ 0xa66 ∷ 0xae6 ∷ 0xb66 ∷ 0xbe6 ∷ 0xc66 ∷ 0xce6
    ∷ 0xd66 ∷ 0xde6 ∷ 0xe50 ∷ 0xed0 ∷ 0xf20 ∷ 0x1040 ∷ 0x1090 ∷ 0x17e0 ∷ 0x1810 ∷ 0x1946 ∷ 0x19d0
    ∷ 0x1a80 ∷ 0x1a90 ∷ 0x1b50 ∷ 0x1bb0 ∷ 0x1c40 ∷ 0x1c50 ∷ 0xa620 ∷ 0xa8d0 ∷ 0xa900 ∷ 0xa9d0
    ∷ 0xa9f0 ∷ 0xaa50 ∷ 0xabf0 ∷ 0xff10 ∷ 0x104a0 ∷ 0x10d30 ∷ 0x11066 ∷ 0x110f0 ∷ 0x11136 ∷ 0x111d0
    ∷ 0x112f0 ∷ 0x11450 ∷ 0x114d0 ∷ 0x11650 ∷ 0x116c0 ∷ 0x11730 ∷ 0x118e0 ∷ 0x11950 ∷ 0x11c50
    ∷ 0x11d50 ∷ 0x11da0 ∷ 0x11f50 ∷ 0x16a60 ∷ 0x16ac0 ∷ 0x16b50 ∷ 0x1d7ce ∷ 0x1d7d8 ∷ 0x1d7e2
    ∷ 0x1d7ec ∷ 0x1d7f6 ∷ 0x1e140 ∷ 0x1e2f0 ∷ 0x1e4f0 ∷ 0x1e950 ∷ 0x1fbf0 ∷ []

digit_above : List ℕ → ℕ → Option ℕ
digit_above [] c = none
digit_above (z ∷ zs) c =
    let rest = digit_above zs c in if leb z c && leb c (z + 9) then some (c - z) else rest

unfoldable pub digit_value : ℕ → Option ℕ
unfolding digit_above
digit_value = digit_above digit_zeros

-- The digits that a text begins with, and what follows them.
unfoldable pub take_digits : List ℕ → List ℕ × List ℕ
take_digits [] = ([], [])
take_digits (c ∷ s) =
    let (ds, rest) = take_digits s in
    elim (digit_value c) [ none ↦ ([], c ∷ s) | some d ↦ (d ∷ ds, rest) ]

-- `int(text)` of digits.
unfoldable pub number_from : ℕ → List ℕ → ℕ
number_from acc [] = acc
number_from acc (d ∷ ds) = number_from (acc * 10 + d) ds
