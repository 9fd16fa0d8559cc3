-- ===== src/Http/OrderCursor/RoundTrip.antt =====
-- What the cursor of a position decodes to.
use Prim.Native.String.{◌++◌ as str_append}
use serverless_order_integra.Base.{
  ℕ, Bool-cases, ◌≤◌, ◌==◌, String, ◌↔◌, if◌then◌else◌, guard, ◌>>◌, str_length, str_eq, eq_iff,
  ◌≡◌, ◌≢◌, refl, Bool, true, false, ◌&&◌, leb, Option, none, some, ok, err, arith, inl, inr, ◌⊎◌,
}
use serverless_order_integra.Domain.Status.{OrderStatus, status_eq_iff, read_status-text}
use serverless_order_integra.Repository.Listing.{OrderListPosition}
use serverless_order_integra.Json.Text.{stringify}
use serverless_order_integra.Events.Patterns.{
  is_base64url_character, all_characters, some_of, cursor_order_id_pattern,
}
use serverless_order_integra.Http.OrderCursor.{
  OrderCursorScope, invalid_cursor, max_cursor_length, status_value, payload_value, cursor_status,
  read_payload, opt_status_eq, split_dots, two_parts, Platform, decode_canonical, encoded_payload,
  signature_of, encode, read_parts, decode,
}
use serverless_order_integra.Http.OrderCursor.Splits.{split_dots-append}

-- What the platform promises of the texts of one cursor: base64url texts are made of its characters
-- (none, for an empty buffer) and read back, a JSON text and a signature are no empty buffers, equal
-- buffers are found equal, and UTF-8 and JSON texts read back.
pub record IsFaithful {Bytes : Type 0} (platform : Platform Bytes) (scope : OrderCursorScope)
    (position : OrderListPosition) : Type 0 where
  pub letters : (b : Bytes) → all_characters is_base64url_character (platform.to_base64url b) ≡ true
  pub some_payload : (str_length (encoded_payload platform scope position) == 0) ≡ false
  pub some_signature :
      (str_length (signature_of platform (encoded_payload platform scope position)) == 0) ≡ false
  pub back : (b : Bytes) → platform.from_base64url (platform.to_base64url b) ≡ b
  pub same : (b : Bytes) → platform.same_bytes b b ≡ true
  pub text :
      platform.from_utf8 (platform.to_utf8 (stringify (payload_value scope position)))
      ≡ stringify (payload_value scope position)
  pub json :
      platform.parse (stringify (payload_value scope position))
      ≡ some (payload_value scope position)

opt_status_eq_iff : (a b : Option OrderStatus) → (opt_status_eq a b ≡ true) ↔ (a ≡ b)
opt_status_eq_iff none none = ground arith
opt_status_eq_iff none (some b) = ground arith
opt_status_eq_iff (some a) none = ground arith
opt_status_eq_iff (some a) (some b) = ground (arith, status_eq_iff a b)

status_is_read : (o : Option OrderStatus) → cursor_status (some (status_value o)) ≡ ok o
unfolding cursor_status
status_is_read none = refl
status_is_read (some s) = rw (read_status-text s)

payload_is_read :
    (is_canonical : String → Bool) (scope : OrderCursorScope) (position : OrderListPosition)
    → is_canonical position.created_at ≡ true
    → cursor_order_id_pattern position.order_id ≡ true
    → read_payload is_canonical (some (payload_value scope position))
      ≡ ok (record {
        merchant_id = scope.merchant_id;
        status = scope.status;
        created_at = position.created_at;
        order_id = position.order_id;
      })
unfolding read_payload payload_value
payload_is_read is_canonical scope position c i = rw (status_is_read scope.status, c, i)

same_scope :
    (a b : OrderCursorScope)
    → (str_eq a.merchant_id b.merchant_id && opt_status_eq a.status b.status) ≡ true
    → b ≡ a
same_scope a b h =
    ground (arith, eq_iff a.merchant_id b.merchant_id, opt_status_eq_iff a.status b.status)

other_scope :
    (a b : OrderCursorScope)
    → (str_eq a.merchant_id b.merchant_id && opt_status_eq a.status b.status) ≡ false
    → b ≢ a
other_scope a b h =
    ground (arith, eq_iff a.merchant_id b.merchant_id, opt_status_eq_iff a.status b.status)

token_fits : (n : ℕ) → 1 ≤ n → n ≤ max_cursor_length → (leb 1 n && leb n max_cursor_length) ≡ true
token_fits n low high = ground arith

asked_for :
    (b : Bool) (p : OrderListPosition)
    → (guard b invalid_cursor >> ok p) ≡ (if b then ok p else err invalid_cursor)
asked_for true p = refl
asked_for false p = refl

some_of_all :
    (s : String)
    → all_characters is_base64url_character s ≡ true
    → (str_length s == 0) ≡ false
    → some_of is_base64url_character s ≡ true
unfolding str_length
some_of_all String.[] h n = cc
some_of_all (String.◌∷◌ c s) h n = h

two_parts_are_found :
    (a b : String)
    → all_characters is_base64url_character a ≡ true
    → (str_length a == 0) ≡ false
    → (str_length b == 0) ≡ false
    → all_characters is_base64url_character b ≡ true
    → two_parts (split_dots (str_append a (str_append "." b))) ≡ some (a, b)
two_parts_are_found a b x y w z = rw (split_dots-append a b x z, y, w)

module _ {Bytes : Type 0} (platform : Platform Bytes) (scope : OrderCursorScope)
    (position : OrderListPosition) (f : IsFaithful platform scope position) where
  canonical_is_decoded :
      (b : Bytes)
      → (str_length (platform.to_base64url b) == 0) ≡ false
      → decode_canonical platform (platform.to_base64url b) ≡ ok b
  unfolding decode_canonical
  canonical_is_decoded b n = rw (
    some_of_all (platform.to_base64url b) (f.letters b) n,
    f.back b,
    (eq_iff (platform.to_base64url b) (platform.to_base64url b)).1 refl,
  )

  parts_are_read :
      (asked : OrderCursorScope)
      → platform.is_canonical position.created_at ≡ true
      → cursor_order_id_pattern position.order_id ≡ true
      → read_parts platform asked
          (encoded_payload platform scope position)
          (signature_of platform (encoded_payload platform scope position))
        ≡ (if str_eq scope.merchant_id asked.merchant_id && opt_status_eq scope.status asked.status
            then ok position
            else err invalid_cursor)
  unfolding read_parts
  parts_are_read asked c i =
      let payload = encoded_payload platform scope position in
      rw
        (
          canonical_is_decoded (platform.sign payload) f.some_signature,
          f.same (platform.sign payload),
          canonical_is_decoded (platform.to_utf8 (stringify (payload_value scope position)))
              f.some_payload,
          f.text,
          f.json,
          payload_is_read platform.is_canonical scope position c i,
        )
        (asked_for
          (str_eq scope.merchant_id asked.merchant_id && opt_status_eq scope.status asked.status)
          position)

  -- A cursor decodes, for the merchant and the status that it was made for, to the position that it
  -- was made from, and is refused for every other merchant or status. The position is one that the
  -- listing gives (a normal date-time, an order id of the documented form), the token is not empty
  -- and not longer than the limit, and the platform's texts are as `IsFaithful` says: they read
  -- back, and the JSON text and the signature are not empty.
  pub decode-encode :
      (asked : OrderCursorScope)
      → platform.is_canonical position.created_at ≡ true
      → cursor_order_id_pattern position.order_id ≡ true
      → 1 ≤ str_length (encode platform scope position)
      → str_length (encode platform scope position) ≤ max_cursor_length
      → ((asked ≡ scope) × (decode platform (encode platform scope position) asked ≡ ok position))
        ⊎ ((asked ≢ scope)
            × (decode platform (encode platform scope position) asked ≡ err invalid_cursor))
  unfolding decode encode
  decode-encode asked c i low high =
      let payload = encoded_payload platform scope position in
      let found =
        two_parts_are_found payload (signature_of platform payload)
          (f.letters (platform.to_utf8 (stringify (payload_value scope position)))) f.some_payload
          f.some_signature (f.letters (platform.sign payload)) in
      let same =
        str_eq scope.merchant_id asked.merchant_id && opt_status_eq scope.status asked.status in
      elim (Bool-cases same) [
        | inl y ↦ inl (
          same_scope scope asked y,
          rw (
            token_fits (str_length (encode platform scope position)) low high,
            found,
            parts_are_read asked c i,
            y,
          ),
        )
        | inr n ↦ inr (
          other_scope scope asked n,
          rw (
            token_fits (str_length (encode platform scope position)) low high,
            found,
            parts_are_read asked c i,
            n,
          ),
        )
      ]
