-- ===== src/Base/Text.antt =====
-- JavaScript strings where the code measures or orders them: by UTF-16 code units.
use Prim.Native.Nat.{ℕ, ◌+◌, ◌-◌, ◌/◌, ◌%◌, suc}
use Prim.Native.Char.{code}
use Prim.Native.String.{String}
use mathlib.Core.Path.{◌≡◌, refl}
use mathlib.Core.Bool.{Bool, true, false}
use mathlib.Core.List.{List, [], ◌∷◌}
use native.Mathlib.Omega.{arith}
use serverless_order_integra.Base.Tests.{ltb, ◌==◌, if◌then◌else◌}

-- A code point beyond the basic plane takes two units, a surrogate pair.
abbrev push_units : ℕ → List ℕ → List ℕ
push_units c rest =
    if ltb c 0x10000
    then c ∷ rest
    else (0xd800 + (c - 0x10000) / 1024) ∷ (0xdc00 + (c - 0x10000) % 1024) ∷ rest

abbrev pub units : String → List ℕ
units String.[] = []
units (String.◌∷◌ c s) = push_units (code c) (units s)

abbrev pub count_units : List ℕ → ℕ
count_units [] = 0
count_units (_ ∷ us) = suc (count_units us)

-- `value.length`
unfoldable pub str_length : String → ℕ
str_length s = count_units (units s)

abbrev lex_lt : List ℕ → List ℕ → Bool
lex_lt [] [] = false
lex_lt [] (y ∷ ys) = true
lex_lt (x ∷ xs) [] = false
lex_lt (x ∷ xs) (y ∷ ys) = if x == y then lex_lt xs ys else ltb x y

-- `a < b`
unfoldable pub str_lt : String → String → Bool
str_lt a b = lex_lt (units a) (units b)

lex_lt_irrefl : (xs : List ℕ) → lex_lt xs xs ≡ false
lex_lt_irrefl [] = refl
lex_lt_irrefl (x ∷ xs) = ground (arith, lex_lt_irrefl xs)

lex_lt_asymm : (xs ys : List ℕ) → lex_lt xs ys ≡ true → lex_lt ys xs ≡ false
lex_lt_asymm [] [] h = refl
lex_lt_asymm [] (y ∷ ys) h = refl
lex_lt_asymm (x ∷ xs) [] h = cc
lex_lt_asymm (x ∷ xs) (y ∷ ys) h = ground (arith, lex_lt_asymm xs ys)

lex_le_trans :
    (xs ys zs : List ℕ) → lex_lt ys xs ≡ false → lex_lt zs ys ≡ false → lex_lt zs xs ≡ false
lex_le_trans [] [] [] h k = refl
lex_le_trans [] [] (z ∷ zs) h k = refl
lex_le_trans [] (y ∷ ys) [] h k = refl
lex_le_trans [] (y ∷ ys) (z ∷ zs) h k = refl
lex_le_trans (x ∷ xs) [] zs h k = cc
lex_le_trans (x ∷ xs) (y ∷ ys) [] h k = cc
lex_le_trans (x ∷ xs) (y ∷ ys) (z ∷ zs) h k = ground (arith, lex_le_trans xs ys zs)

-- `a` is not after `b`.
abbrev pub NotAfter : String → String → Type 0
NotAfter a b = str_lt b a ≡ false

pub NotAfter-refl : (a : String) → NotAfter a a
unfolding str_lt
NotAfter-refl a = lex_lt_irrefl (units a)

pub NotAfter-of_lt : (a b : String) → str_lt a b ≡ true → NotAfter a b
unfolding str_lt
NotAfter-of_lt a b h = lex_lt_asymm (units a) (units b) h

pub NotAfter-trans : (a b c : String) → NotAfter a b → NotAfter b c → NotAfter a c
unfolding str_lt
NotAfter-trans a b c h k = lex_le_trans (units a) (units b) (units c) h k
