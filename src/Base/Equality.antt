-- ===== src/Base/Equality.antt =====
-- Decidable equality as an interface, with the instances that the maps' keys need.
use Prim.Native.String.{String}
use mathlib.Core.Path.{◌≡◌}
use mathlib.Core.Logic.{◌↔◌}
use mathlib.Core.Bool.{Bool, true, false, ◌&&◌}
use mathlib.Core.Option.{Option, none, some}
use mathlib.Core.List.{List, [], ◌∷◌}
use native.Mathlib.Omega.{arith}
use text.Mathlib.Text.{◌==◌ as str_eq}
use text.Mathlib.TextEquality.{eq_iff}

pub record Equality {ℓ} (A : Type ℓ) : Type ℓ where
  pub equals : A → A → Bool
  pub equals_iff : (a b : A) → (equals a b ≡ true) ↔ (a ≡ b)

abbrev pub strs_eq : List String → List String → Bool
strs_eq [] [] = true
strs_eq (x ∷ xs) (y ∷ ys) = str_eq x y && strs_eq xs ys
strs_eq [] (y ∷ ys) = false
strs_eq (x ∷ xs) [] = false

pub strs_eq_iff : (xs ys : List String) → (strs_eq xs ys ≡ true) ↔ (xs ≡ ys)
strs_eq_iff [] [] = ground arith
strs_eq_iff [] (y ∷ ys) = ground arith
strs_eq_iff (x ∷ xs) [] = ground arith
strs_eq_iff (x ∷ xs) (y ∷ ys) = ground (arith, eq_iff x y, strs_eq_iff xs ys)

instance abbrev pub string_equality : Equality String
string_equality = record { equals = str_eq; equals_iff = eq_iff }

-- `tupleKey(...parts)`: the keys of the code are the JSON texts of lists of strings, which are
-- equal exactly when the lists are. The list itself stands for its text.
abbrev pub Key : Type 0
Key = List String

instance abbrev pub key_equality : Equality Key
key_equality = record { equals = strs_eq; equals_iff = strs_eq_iff }

-- `a === b` on optional strings
abbrev pub opt_str_eq : Option String → Option String → Bool
opt_str_eq none none = true
opt_str_eq (some a) (some b) = str_eq a b
opt_str_eq none (some b) = false
opt_str_eq (some a) none = false

pub opt_str_eq_iff : (a b : Option String) → (opt_str_eq a b ≡ true) ↔ (a ≡ b)
opt_str_eq_iff none none = ground arith
opt_str_eq_iff none (some b) = ground arith
opt_str_eq_iff (some a) none = ground arith
opt_str_eq_iff (some a) (some b) = ground (arith, eq_iff a b)
