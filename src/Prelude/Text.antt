-- ===== src/Prelude/Text.antt =====
-- Strings of the program as lists of bytes.
use Prim.Native.String.{String}
use Prim.Native.Char.{code}
use Prim.Native.Nat.{ℕ}
use mathlib.Core.Path.{◌≡◌, refl, ap₂}
use mathlib.Core.Bool.{Bool, true, false, ◌&&◌}
use mathlib.Core.List.{List, [], ◌∷◌}
use native.Mathlib.Omega.{arith}
use postboy.Prelude.Tests.{◌==◌, if◌then◌else◌}

abbrev pub Bytes : Type 0
Bytes = List ℕ

-- The bytes of an ASCII literal.
abbrev pub codes : String → Bytes
codes String.[] = []
codes (String.◌∷◌ c s) = code c ∷ codes s

-- What is left of bytes that are taken as a C string: those before the first zero byte.
abbrev pub c_string : Bytes → Bytes
c_string [] = []
c_string (x ∷ xs) = let later = c_string xs in if x == 0 then [] else x ∷ later

unfoldable pub bytes_eq : Bytes → Bytes → Bool
bytes_eq [] [] = true
bytes_eq [] (y ∷ ys) = false
bytes_eq (x ∷ xs) [] = false
bytes_eq (x ∷ xs) (y ∷ ys) = x == y && bytes_eq xs ys

pub bytes_eq→eq : (xs ys : Bytes) → bytes_eq xs ys ≡ true → xs ≡ ys
unfolding bytes_eq
bytes_eq→eq [] [] h = refl
bytes_eq→eq [] (y ∷ ys) h = cc h
bytes_eq→eq (x ∷ xs) [] h = cc h
bytes_eq→eq (x ∷ xs) (y ∷ ys) h = ap₂ ◌∷◌ (ground arith) (bytes_eq→eq xs ys (ground arith))

pub bytes_eq_refl : (xs : Bytes) → bytes_eq xs xs ≡ true
unfolding bytes_eq
bytes_eq_refl [] = refl
bytes_eq_refl (x ∷ xs) = ground (arith, bytes_eq_refl xs)
