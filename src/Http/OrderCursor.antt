-- ===== src/Http/OrderCursor.antt =====
-- src/http/order-cursor.ts: the signed cursors of the order listing.
pub mod Splits
pub mod RoundTrip
pub mod Signed
use Prim.Native.Char.{Char, code}
use Prim.Native.String.{◌++◌ as str_append}
use serverless_order_integra.Base.{
  ℕ, ◌==◌, pos, String, str_eq, str_length, Bool, true, false, not, ◌&&◌, ◌||◌, Option, none, some,
  List, [], ◌∷◌, Result, ok, err, ◌>>=◌, ◌>>◌, guard, require, leb, if◌then◌else◌,
}
use serverless_order_integra.Domain.Status.{OrderStatus, status_eq, status_text, read_status}
use serverless_order_integra.Domain.Errors.{AppError, plain_error, range_error}
use serverless_order_integra.Repository.Listing.{OrderListPosition}
use serverless_order_integra.Json.{
  Value, null, num, int, str, obj, Fields, field, end_of_object, lookup, as_record, as_text,
  is_number,
}
use serverless_order_integra.Json.Text.{stringify}
use serverless_order_integra.Events.Patterns.{
  is_base64url_character, some_of, cursor_order_id_pattern,
}

pub record OrderCursorScope : Type 0 where
  pub merchant_id : String
  pub status : Option OrderStatus

-- `CursorPayload`, without its version.
pub record CursorPayload : Type 0 where
  pub merchant_id : String
  pub status : Option OrderStatus
  pub created_at : String
  pub order_id : String

-- `InvalidOrderCursorError`
abbrev pub invalid_cursor : AppError
invalid_cursor = plain_error "The order cursor is invalid or does not belong to this query."

abbrev pub max_cursor_length : ℕ
max_cursor_length = 2048

abbrev pub status_value : Option OrderStatus → Value
status_value none = null
status_value (some s) = str (status_text s)

unfoldable pub payload_value : OrderCursorScope → OrderListPosition → Value
payload_value scope position = obj (
    field "version" (num (int (pos 1))) (
      field "merchantId" (str scope.merchant_id) (
        field "status" (status_value scope.status) (
          field "createdAt" (str position.created_at)
            (field "orderId" (str position.order_id) end_of_object)))))

-- `value['status']`, when it is `null` or one of the statuses
unfoldable pub cursor_status : Option Value → Result AppError (Option OrderStatus)
cursor_status (some null) = ok none
cursor_status (some (str s)) = require (read_status s) invalid_cursor >>= λ status. ok (some status)
cursor_status _ = err invalid_cursor

-- `is_canonical` is `new Date(text).toISOString() === text`.
unfoldable pub read_payload :
    (is_canonical : String → Bool) → Option Value → Result AppError CursorPayload
read_payload is_canonical payload = do
  value ← require (as_record payload) invalid_cursor
  guard (is_number (lookup "version" value) 1) invalid_cursor
  merchant_id ← require (as_text (lookup "merchantId" value)) invalid_cursor
  status ← cursor_status (lookup "status" value)
  created_at ← require (as_text (lookup "createdAt" value)) invalid_cursor
  guard (is_canonical created_at) invalid_cursor
  order_id ← require (as_text (lookup "orderId" value)) invalid_cursor
  guard (cursor_order_id_pattern order_id) invalid_cursor
  ok (record {
    merchant_id = merchant_id;
    status = status;
    created_at = created_at;
    order_id = order_id;
  })

-- `===` on `status ?? null`
abbrev pub opt_status_eq : Option OrderStatus → Option OrderStatus → Bool
opt_status_eq none none = true
opt_status_eq (some a) (some b) = status_eq a b
opt_status_eq none (some b) = false
opt_status_eq (some a) none = false

abbrev pub push_character : Char → List String → List String
push_character c [] = String.◌∷◌ c String.[] ∷ []
push_character c (w ∷ ws) = String.◌∷◌ c w ∷ ws

-- `token.split('.')`; 46 is the code of the dot.
unfoldable pub split_dots : String → List String
split_dots String.[] = "" ∷ []
split_dots (String.◌∷◌ c s) =
    let rest = split_dots s in if code c == 46 then "" ∷ rest else push_character c rest

-- The two parts of a token, neither of them empty.
abbrev pub two_parts : List String → Option (String × String)
two_parts (a ∷ b ∷ []) = if str_length a == 0 || str_length b == 0 then none else some (a, b)
two_parts _ = none

-- The platform: buffers, their base64url texts, UTF-8, and `JSON.parse` (`none` where it throws).
-- `sign` is the HMAC of a text under the codec's secret, `same_bytes` the test that lengths and
-- bytes are equal.
pub record Platform (Bytes : Type 0) : Type 0 where
  pub from_base64url : String → Bytes
  pub to_base64url : Bytes → String
  pub to_utf8 : String → Bytes
  pub from_utf8 : Bytes → String
  pub sign : String → Bytes
  pub same_bytes : Bytes → Bytes → Bool
  pub parse : String → Option Value
  pub is_canonical : String → Bool

-- The codec is made only with a secret of at least 32 bytes.
unfoldable pub check_signing_secret : (byte_length : ℕ) → Result AppError (Unit {0})
check_signing_secret byte_length =
    guard (leb 32 byte_length)
      (range_error "The cursor signing secret must contain at least 32 bytes.")

module _ {Bytes : Type 0} (platform : Platform Bytes) where
  unfoldable pub decode_canonical : String → Result AppError Bytes
  decode_canonical value = do
    guard (some_of is_base64url_character value) invalid_cursor
    guard (str_eq (platform.to_base64url (platform.from_base64url value)) value) invalid_cursor
    ok (platform.from_base64url value)

  abbrev pub encoded_payload : OrderCursorScope → OrderListPosition → String
  encoded_payload scope position =
      platform.to_base64url (platform.to_utf8 (stringify (payload_value scope position)))

  abbrev pub signature_of : String → String
  signature_of payload = platform.to_base64url (platform.sign payload)

  unfoldable pub encode : OrderCursorScope → OrderListPosition → String
  encode scope position =
      let payload = encoded_payload scope position in
      str_append payload (str_append "." (signature_of payload))

  abbrev pub check_signature : String → String → Result AppError (Unit {0})
  check_signature payload encoded_signature = do
    signature ← decode_canonical encoded_signature
    guard (platform.same_bytes signature (platform.sign payload)) invalid_cursor

  unfoldable pub read_parts : OrderCursorScope → String → String → Result AppError OrderListPosition
  read_parts scope encoded signature = do
    check_signature encoded signature
    bytes ← decode_canonical encoded
    value ← require (platform.parse (platform.from_utf8 bytes)) invalid_cursor
    payload ← read_payload platform.is_canonical (some value)
    guard
        (str_eq payload.merchant_id scope.merchant_id && opt_status_eq payload.status scope.status)
        invalid_cursor
    ok (record { created_at = payload.created_at; order_id = payload.order_id })

  unfoldable pub decode : String → OrderCursorScope → Result AppError OrderListPosition
  decode token scope = do
    guard (leb 1 (str_length token) && leb (str_length token) max_cursor_length) invalid_cursor
    parts ← require (two_parts (split_dots token)) invalid_cursor
    read_parts scope parts.0 parts.1
