-- ===== src/Http/OrderCursor/Splits.antt =====
-- A token splits into the parts that it is made of.
use Prim.Native.Char.{Char, code}
use Prim.Native.String.append
use Prim.Native.String.{◌++◌ as str_append}
use serverless_order_integra.Base.{
  ℕ, ◌==◌, String, Bool, ◌&&◌, ◌≡◌, refl, true, false, List, [], ◌∷◌, arith,
}
use serverless_order_integra.Events.Patterns.{is_base64url_character, all_characters}
use serverless_order_integra.Http.OrderCursor.{split_dots}

both : (x : Bool) {y : Bool} → (x && y) ≡ true → (x ≡ true) × (y ≡ true)
both true h = (refl, h)
both false h = cc

-- No dot is among the characters of a part.
not_a_dot : (c : ℕ) → is_base64url_character c ≡ true → (c == 46) ≡ false
not_a_dot c h = ground arith

-- No dot stands in a part, so it is not split.
pub split_dots-part :
    (s : String) → all_characters is_base64url_character s ≡ true → split_dots s ≡ s ∷ []
unfolding split_dots
split_dots-part String.[] h = refl
split_dots-part (String.◌∷◌ c s) h =
    let (a, b) = both (is_base64url_character (code c)) h in
    rw (not_a_dot (code c) a, split_dots-part s b)

split_dots-dot :
    (s : String)
    → all_characters is_base64url_character s ≡ true
    → split_dots (str_append "." s) ≡ "" ∷ s ∷ []
unfolding split_dots
split_dots-dot s k = rw (append.cons "." "" s, append.nil s, split_dots-part s k)

split_dots-push :
    (c : Char) (t w : String) (ws : List String)
    → is_base64url_character (code c) ≡ true
    → split_dots t ≡ w ∷ ws
    → split_dots (String.◌∷◌ c t) ≡ String.◌∷◌ c w ∷ ws
unfolding split_dots
split_dots-push c t w ws h e = rw (not_a_dot (code c) h, e)

pub split_dots-append :
    (p s : String)
    → all_characters is_base64url_character p ≡ true
    → all_characters is_base64url_character s ≡ true
    → split_dots (str_append p (str_append "." s)) ≡ p ∷ s ∷ []
split_dots-append String.[] s h k = rw (append.nil (str_append "." s)) (split_dots-dot s k)
split_dots-append (String.◌∷◌ c p) s h k =
    let (a, b) = both (is_base64url_character (code c)) h in
    rw (append.cons c p (str_append "." s))
      (split_dots-push c (str_append p (str_append "." s)) p (s ∷ []) a (split_dots-append p s b k))
