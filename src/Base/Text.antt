-- ===== src/Base/Text.antt =====
-- The parts of Go's `strings` package that the source calls, on ASCII text.
use Prim.Native.Nat.{ℕ, ◌+◌}
use Prim.Native.Char.{code}
use Prim.Native.String.{String}
use mathlib.Core.Bool.{Bool, true, false, ◌&&◌, ◌||◌}
use mathlib.Core.List.{List, [], ◌∷◌, map}
use sentinel_api.Base.Tests.{leb, ◌==◌, if◌then◌else◌}

-- The numbers of a string's characters.
abbrev pub codes : String → List ℕ
codes (String.◌∷◌ first rest) = code first ∷ codes rest
codes String.[] = []

abbrev pub lower : ℕ → ℕ
lower c = if leb b'A' c && leb c b'Z' then c + 32 else c

-- strings.ToLower
abbrev pub to_lower : String → List ℕ
to_lower s = map lower (codes s)

-- strings.HasPrefix
unfoldable pub has_prefix : List ℕ → List ℕ → Bool
has_prefix s [] = true
has_prefix [] (c ∷ cs) = false
has_prefix (d ∷ s) (c ∷ cs) = (d == c) && has_prefix s cs

-- strings.Contains
unfoldable pub contains : List ℕ → List ℕ → Bool
unfolding has_prefix
contains [] sub = has_prefix [] sub
contains (d ∷ s) sub = has_prefix (d ∷ s) sub || contains s sub

-- Equality of texts, by their numbers.
unfoldable pub same_text : List ℕ → List ℕ → Bool
same_text [] [] = true
same_text [] (b ∷ bs) = false
same_text (a ∷ s) [] = false
same_text (a ∷ s) (b ∷ bs) = (a == b) && same_text s bs
