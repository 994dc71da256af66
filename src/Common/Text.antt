-- ===== src/Common/Text.antt =====
-- What the source uses of Python's `str` and `bytes`: prefixes and hexadecimal digits. A text is read
-- as its code points.
use Prim.Native.Nat.{ℕ, ◌+◌, ◌-◌, ◌*◌}
use Prim.Native.Char.{code}
use Prim.Native.String.{String}
use mathlib.Core.Bool.{Bool, true, false, ◌&&◌, ◌||◌}
use mathlib.Core.Option.{Option, none, some}
use mathlib.Core.Path.{◌≡◌, refl}
use mathlib.Core.List.{List, [], ◌∷◌, ◌++◌}
use native.Mathlib.Omega.{arith}
use quinkgl_framework.Common.Tests.{ltb, leb, if◌then◌else◌}
use quinkgl_framework.Common.Equality.{◌==◌, nat_eq, list_eq}
use quinkgl_framework.Common.Lists.{length, drop}

abbrev pub codes : String → List ℕ
codes String.[] = []
codes (String.◌∷◌ c s) = code c ∷ codes s

-- The rest after a prefix.
unfoldable pub strip_prefix : List ℕ → List ℕ → Option (List ℕ)
strip_prefix [] s = some s
strip_prefix (c ∷ p) [] = none
strip_prefix (c ∷ p) (d ∷ s) = let rest = strip_prefix p s in if c == d then rest else none

unfoldable pub digit : ℕ → Option ℕ
digit c =
    if leb b'0' c && leb c b'9'
    then some (c - b'0')
    else (if leb b'a' c && leb c b'f'
        then some (c - b'a' + 10)
        else (if leb b'A' c && leb c b'F' then some (c - b'A' + 10) else none))

abbrev is_space : ℕ → Bool
is_space c = (c == 32) || (leb 9 c && leb c 13)

-- `bytes.fromhex`, which skips white space between bytes; none is its ValueError. A first digit may
-- wait for its second.
unfoldable pub from_hex : List ℕ → Option ℕ → Option (List ℕ)
unfolding digit
from_hex [] none = some []
from_hex [] (some high) = none
from_hex (c ∷ s) none =
    let skipped = from_hex s none in
    let next = from_hex s (digit c) in
    if is_space c then skipped else elim (digit c) [ none ↦ none | some high ↦ next ]
from_hex (c ∷ s) (some high) =
    let rest = from_hex s none in
    elim (digit c) [
      | none ↦ none
      | some low ↦ elim rest [ none ↦ none | some bytes ↦ some ((high * 16 + low) ∷ bytes) ]
    ]

-- `s.endswith(suffix)`
unfoldable pub ends_with : List ℕ → List ℕ → Bool
ends_with s suffix = drop (length s - length suffix) s == suffix

-- Order of texts by their code points.
unfoldable pub text_leb : List ℕ → List ℕ → Bool
text_leb [] t = true
text_leb (c ∷ s) [] = false
text_leb (c ∷ s) (d ∷ t) = let rest = text_leb s t in if c == d then rest else ltb c d

pub strip_prefix-append : (p s : List ℕ) → strip_prefix p (p ++ s) ≡ some s
unfolding strip_prefix
strip_prefix-append [] s = refl
strip_prefix-append (c ∷ p) s = ground (arith, nat_eq, strip_prefix-append p s)
