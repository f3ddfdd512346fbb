-- ===== src/Prelude/Texts.antt =====
-- `std::string` as the list of its bytes.
use Prim.Native.Nat.{ℕ}
use mathlib.Core.Path.{◌≡◌}
use mathlib.Core.Logic.{◌↔◌}
use mathlib.Core.Bool.{Bool, true, false, ◌&&◌, ◌||◌}
use mathlib.Core.List.{List, [], ◌∷◌}
use native.Mathlib.Omega.{arith}
use uniubi_ros.Prelude.Tests.{leb, ◌==◌, if◌then◌else◌}
use uniubi_ros.Prelude.Lists.{is_nil}

abbrev pub Bytes : Type 0
Bytes = List ℕ

abbrev pub slash : ℕ
slash = 47

-- Equality of texts.
abbrev pub same : Bytes → Bytes → Bool
same [] [] = true
same (a ∷ xs) (b ∷ ys) = a == b && same xs ys
same _ _ = false

pub same_eq : (xs ys : Bytes) → (same xs ys ≡ true) ↔ (xs ≡ ys)
same_eq [] [] = ground arith
same_eq [] (b ∷ ys) = ground arith
same_eq (a ∷ xs) [] = ground arith
same_eq (a ∷ xs) (b ∷ ys) = ground (arith, same_eq xs ys)

-- `rfind(prefix, 0) == 0`.
abbrev pub starts_with : Bytes → Bytes → Bool
starts_with [] s = true
starts_with (p ∷ ps) [] = false
starts_with (p ∷ ps) (c ∷ cs) = p == c && starts_with ps cs

-- The tests of <cctype> in the C locale.
abbrev pub is_alpha : ℕ → Bool
is_alpha c = (leb 65 c && leb c 90) || (leb 97 c && leb c 122)

abbrev pub is_alnum : ℕ → Bool
is_alnum c = is_alpha c || (leb 48 c && leb c 57)

abbrev pub is_cntrl : ℕ → Bool
is_cntrl c = leb c 31 || c == 127

-- The loop that pops '/' off the back of a text while it ends in one.
abbrev pub keep_byte : ℕ → Bytes → Bytes
keep_byte c rest = if is_nil rest && c == slash then [] else c ∷ rest

unfoldable pub strip : Bytes → Bytes
strip [] = []
strip (c ∷ cs) = keep_byte c (strip cs)
