-- ===== src/Text.antt =====
-- Python's `str` as a list of code points: literals, equality, and the methods that the sources
-- call (startswith, endswith, slices, rsplit with a limit of 1, rstrip, join).
pub mod Laws
pub mod Parts
pub mod Order
pub mod Suffix
use Prim.Native.Char.{code}
use Prim.Native.String
use Prim.Native.String.{String}
use docling_serve_ray.Prelude.{
  ℕ, ◌-◌, Bool, true, false, ◌&&◌, Option, none, some, List, [], ◌∷◌, ◌==◌, if◌then◌else◌, length,
  take, drop,
}

abbrev pub Text : Type 0
Text = List ℕ

-- The code points of a literal.
abbrev pub codes : String → Text
codes String.[] = []
codes (String.◌∷◌ c s) = code c ∷ codes s

-- `s == t`
unfoldable pub str_eq : Text → Text → Bool
str_eq [] [] = true
str_eq [] (c ∷ t) = false
str_eq (c ∷ s) [] = false
str_eq (c ∷ s) (d ∷ t) = c == d && str_eq s t

-- `s.startswith(p)`
unfoldable pub starts_with : Text → Text → Bool
unfolding str_eq
starts_with s p = str_eq (take (length p) s) p

-- `s.endswith(e)`
unfoldable pub ends_with : Text → Text → Bool
unfolding str_eq
ends_with s e = str_eq (drop (length s - length e) s) e

-- `s[:-n]` for a positive n
unfoldable pub drop_last : ℕ → Text → Text
drop_last n s = take (length s - n) s

-- `c in s` for one character
unfoldable pub has_char : ℕ → Text → Bool
has_char c [] = false
has_char c (d ∷ s) = if c == d then true else has_char c s

abbrev pub split_step : ℕ → ℕ → Text → Option (Text × Text) → Option (Text × Text)
split_step c d s none = if c == d then some ([], s) else none
split_step c d s (some (before, after)) = some (d ∷ before, after)

-- What stands before and after the last `c`; `none` where `s` has none.
unfoldable pub split_last : ℕ → Text → Option (Text × Text)
split_last c [] = none
split_last c (d ∷ s) = split_step c d s (split_last c s)

-- `s.rsplit(c, 1)[-1]`
unfoldable pub last_part : ℕ → Text → Text
unfolding split_last
last_part c s = elim (split_last c s) [ none ↦ s | some (before, after) ↦ after ]

-- `s.rsplit(c, 1)[0]`
unfoldable pub first_part : ℕ → Text → Text
unfolding split_last
first_part c s = elim (split_last c s) [ none ↦ s | some (before, after) ↦ before ]

strip_step : ℕ → ℕ → Text → Text
strip_step c d [] = if c == d then [] else d ∷ []
strip_step c d (e ∷ s) = d ∷ e ∷ s

-- `s.rstrip(c)` for one character
unfoldable pub strip_end : ℕ → Text → Text
unfolding strip_step
strip_end c [] = []
strip_end c (d ∷ s) = strip_step c d (strip_end c s)
