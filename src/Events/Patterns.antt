-- ===== src/Events/Patterns.antt =====
-- The regular expressions on identifiers of src/events and src/http, as tests on characters.
use Prim.Native.Char.{code}
use serverless_order_integra.Base.{
  ℕ, zero, suc, String, Bool, true, false, ◌&&◌, ◌||◌, leb, ◌==◌, if◌then◌else◌, str_length,
}

abbrev between : ℕ → ℕ → ℕ → Bool
between low high c = leb low c && leb c high

-- `[A-Za-z0-9]`
abbrev pub is_alphanumeric : ℕ → Bool
is_alphanumeric c = between 65 90 c || between 97 122 c || between 48 57 c

-- `[A-Za-z0-9._:-]`
abbrev pub is_safe_character : ℕ → Bool
is_safe_character c = is_alphanumeric c || c == 46 || c == 95 || c == 58 || c == 45

-- `[A-Za-z0-9_-]`
abbrev pub is_base64url_character : ℕ → Bool
is_base64url_character c = is_alphanumeric c || c == 95 || c == 45

abbrev pub all_characters : (ℕ → Bool) → String → Bool
all_characters test String.[] = true
all_characters test (String.◌∷◌ c s) = test (code c) && all_characters test s

-- `^[...]+$`
abbrev pub some_of : (ℕ → Bool) → String → Bool
some_of test String.[] = false
some_of test (String.◌∷◌ c s) = test (code c) && all_characters test s

-- `={0,n}$`
abbrev at_most_equals : ℕ → String → Bool
at_most_equals n String.[] = true
at_most_equals zero (String.◌∷◌ c s) = false
at_most_equals (suc n) (String.◌∷◌ c s) = code c == 61 && at_most_equals n s

-- `[A-Za-z0-9._:-]*={0,2}$`
abbrev safe_rest : String → Bool
safe_rest String.[] = true
safe_rest (String.◌∷◌ c s) =
    let rest = safe_rest s in
    if is_safe_character (code c) then rest else code c == 61 && at_most_equals 1 s

-- `/^[A-Za-z0-9._:-]+={0,2}$/`
unfoldable pub safe_id_pattern : String → Bool
safe_id_pattern String.[] = false
safe_id_pattern (String.◌∷◌ c s) = is_safe_character (code c) && safe_rest s

-- `^prefix` and a test on what follows it
abbrev pub after_prefix : String → (String → Bool) → String → Bool
after_prefix String.[] test s = test s
after_prefix (String.◌∷◌ p ps) test String.[] = false
after_prefix (String.◌∷◌ p ps) test (String.◌∷◌ c s) = code p == code c && after_prefix ps test s

abbrev length_between : ℕ → ℕ → String → Bool
length_between low high s = leb low (str_length s) && leb (str_length s) high

-- `/^evt_[A-Za-z0-9_-]{16,128}$/`; its characters are one code unit each.
unfoldable pub event_id_pattern : String → Bool
event_id_pattern =
    after_prefix "evt_" λ s. all_characters is_base64url_character s && length_between 16 128 s

-- `/^ord_[A-Za-z0-9]+$/`
unfoldable pub order_id_pattern : String → Bool
order_id_pattern = after_prefix "ord_" (some_of is_alphanumeric)

-- `/^mrc_[A-Za-z0-9]+$/`
unfoldable pub merchant_id_pattern : String → Bool
merchant_id_pattern = after_prefix "mrc_" (some_of is_alphanumeric)

-- `/^ord_[A-Za-z0-9]{8,60}$/`
unfoldable pub cursor_order_id_pattern : String → Bool
cursor_order_id_pattern =
    after_prefix "ord_" λ s. all_characters is_alphanumeric s && length_between 8 60 s
