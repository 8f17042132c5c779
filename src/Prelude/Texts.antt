-- ===== src/Prelude/Texts.antt =====
-- Texts as lists of character codes.
use Prim.Native.Nat.{ℕ, ◌+◌, ◌-◌, ◌*◌, ◌≤◌}
use Prim.Native.Char.{code}
use Prim.Native.String.{String}
use mathlib.Core.Path.{◌≡◌, refl}
use mathlib.Core.Bool.{Bool, true, false, ◌&&◌, ◌||◌}
use mathlib.Core.List.{List, [], ◌∷◌}
use native.Mathlib.Omega.{arith}
use axe_voice_desktop.Prelude.Tests.{◌==◌, leb}

abbrev pub Text : Type 0
Text = List ℕ

-- The codes of a literal.
abbrev pub codes : String → Text
codes String.[] = []
codes (String.◌∷◌ c s) = code c ∷ codes s

-- `==` on strings.
abbrev pub text_eq : Text → Text → Bool
text_eq [] [] = true
text_eq (x ∷ xs) (y ∷ ys) = (x == y) && text_eq xs ys
text_eq _ _ = false

abbrev pub is_empty {ℓ} : {A : Type ℓ} → List A → Bool
is_empty [] = true
is_empty (x ∷ xs) = false

-- `compare(0, start.size(), start) == 0`
abbrev pub starts_with : Text → Text → Bool
starts_with [] t = true
starts_with (c ∷ cs) [] = false
starts_with (c ∷ cs) (x ∷ xs) = (x == c) && starts_with cs xs

-- Some character passes the test.
abbrev pub any : (ℕ → Bool) → Text → Bool
any f [] = false
any f (c ∷ cs) = f c || any f cs

-- All characters pass the test.
abbrev pub all : (ℕ → Bool) → Text → Bool
all f [] = true
all f (c ∷ cs) = f c && all f cs

abbrev pub between : ℕ → ℕ → ℕ → Bool
between low high c = leb low c && leb c high

abbrev pub is_digit : ℕ → Bool
is_digit c = between b'0' b'9' c

abbrev pub is_letter : ℕ → Bool
is_letter c = between b'a' b'z' c || between b'A' b'Z' c

abbrev pub is_alnum : ℕ → Bool
is_alnum c = is_letter c || is_digit c

pub text_eq→≡ : (xs ys : Text) → text_eq xs ys ≡ true → xs ≡ ys
text_eq→≡ [] [] h = refl
text_eq→≡ [] (y ∷ ys) h = ground arith
text_eq→≡ (x ∷ xs) [] h = ground arith
text_eq→≡ (x ∷ xs) (y ∷ ys) h = ground (arith, text_eq→≡ xs ys)

pub text_eq_refl : (xs : Text) → text_eq xs xs ≡ true
text_eq_refl [] = refl
text_eq_refl (x ∷ xs) = ground (arith, text_eq_refl xs)

-- The number that decimal digits stand for, behind the digits of `value`.
abbrev pub value_from : ℕ → Text → ℕ
value_from value [] = value
value_from value (c ∷ cs) = value_from (value * 10 + (c - b'0')) cs

pub value_grows : (cs : Text) (value : ℕ) → value ≤ value_from value cs
value_grows [] value = omega arith
value_grows (c ∷ cs) value = omega (arith, value_grows cs (value * 10 + (c - b'0')))
