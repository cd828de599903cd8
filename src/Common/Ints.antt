-- ===== src/Common/Ints.antt =====
-- Signed numbers, and `strconv.Atoi` with its error dropped, as Go's code often uses it.
use Prim.Native.Nat.{ℕ, ◌+◌, ◌-◌, ◌*◌, ◌^◌}
use Prim.Native.Char.{code}
use Prim.Native.String.{String}
use mathlib.Core.Bool.{Bool, true, false, ◌&&◌}
use mathlib.Core.Option.{Option, none, some}
use mathlib.Core.List.{List, [], ◌∷◌}
use radio_gaga.Common.Tests.{ltb, leb, ◌==◌, if◌then◌else◌}

-- `negsuc n` is -(n + 1).
pub data ℤ : Type 0 where
  pos : ℕ → ℤ
  negsuc : ℕ → ℤ

-- Comparisons with a constant that is not negative.
abbrev pub at_most : ℤ → ℕ → Bool
at_most (pos n) k = leb n k
at_most (negsuc n) k = true

abbrev pub at_least : ℤ → ℕ → Bool
at_least (pos n) k = leb k n
at_least (negsuc n) k = false

abbrev pub codes : String → List ℕ
codes String.[] = []
codes (String.◌∷◌ c s) = code c ∷ codes s

unfoldable pub decimal : ℕ → List ℕ → Option ℕ
decimal n [] = some n
decimal n (c ∷ cs) = if leb b'0' c && leb c b'9' then decimal (n * 10 + (c - b'0')) cs else none

abbrev pub not_empty : List ℕ → Option ℕ → Option ℕ
not_empty [] o = none
not_empty (c ∷ cs) o = o

-- A value that does not fit in 64 bits is cut to the nearest that does; any other error gives 0.
abbrev pub positive : Option ℕ → ℤ
positive none = pos 0
positive (some n) = pos (if ltb n (2 ^ 63) then n else 2 ^ 63 - 1)

abbrev pub negative : Option ℕ → ℤ
negative none = pos 0
negative (some n) = if n == 0 then pos 0 else negsuc (if ltb (2 ^ 63) n then 2 ^ 63 - 1 else n - 1)

unfoldable pub parse_codes : List ℕ → ℤ
unfolding decimal
parse_codes [] = pos 0
parse_codes (c ∷ cs) =
    if c == b'-'
    then negative (not_empty cs (decimal 0 cs))
    else (if c == b'+'
        then positive (not_empty cs (decimal 0 cs))
        else positive (decimal 0 (c ∷ cs)))

unfoldable pub parse_int : String → ℤ
unfolding parse_codes
parse_int s = parse_codes (codes s)
