-- ===== src/Base/Text.antt =====
-- Texts: equality, `trim`, the test for an empty text, and the search for a part of one.
use Prim.Native.Char.{Char, code}
use Prim.Native.Nat.{Ordering}
use Prim.Native.String.{String, compare as compare_text}
use mathlib.Core.Path.{◌≡◌, refl}
use mathlib.Core.Bool.{Bool, true, false, ◌&&◌, ◌||◌}
use text.Mathlib.TextEquality.{path_by_compare}
use uppity.Base.Tests.{leb, ◌==◌, if◌then◌else◌}

-- A character that `String.prototype.trim` removes: white space or a line terminator.
abbrev is_space : Char → Bool
is_space c =
    let n = code c in
    (leb 9 n && leb n 13)
    || (n == 32)
    || (n == 160)
    || (n == 5760)
    || (leb 8192 n && leb n 8202)
    || (n == 8232)
    || (n == 8233)
    || (n == 8239)
    || (n == 8287)
    || (n == 12288)
    || (n == 65279)

abbrev trim_start : String → String
trim_start String.[] = String.[]
trim_start (String.◌∷◌ c s) = if is_space c then trim_start s else String.◌∷◌ c s

-- `name.length < 1`
abbrev pub is_empty : String → Bool
is_empty String.[] = true
is_empty (String.◌∷◌ c s) = false

abbrev trim_end : String → String
trim_end String.[] = String.[]
trim_end (String.◌∷◌ c s) =
    let rest = trim_end s in if is_space c && is_empty rest then String.[] else String.◌∷◌ c rest

-- `trim`
unfoldable pub trim : String → String
trim s = trim_end (trim_start s)

-- `===` on two texts.
abbrev pub same_text : String → String → Bool
same_text s t = elim (compare_text s t) [ Ordering.eq ↦ true | _ ↦ false ]

pub same_text-eq : (s t : String) → same_text s t ≡ true → s ≡ t
same_text-eq s t e = path_by_compare s t (go (compare_text s t) e)
  where
    go : (o : Ordering) → (elim o [ Ordering.eq ↦ true | _ ↦ false ]) ≡ true → o ≡ Ordering.eq
    go Ordering.lt h = cc
    go Ordering.eq h = refl
    go Ordering.gt h = cc

-- `startsWith`
abbrev pub starts_with : String → String → Bool
starts_with String.[] s = true
starts_with (String.◌∷◌ c p) String.[] = false
starts_with (String.◌∷◌ c p) (String.◌∷◌ d s) = if code c == code d then starts_with p s else false

-- `includes`
abbrev pub includes : String → String → Bool
includes p String.[] = is_empty p
includes p (String.◌∷◌ c s) = if starts_with p (String.◌∷◌ c s) then true else includes p s
