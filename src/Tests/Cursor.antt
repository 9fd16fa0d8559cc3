-- ===== src/Tests/Cursor.antt =====
-- The result on cursors, at one position.
use serverless_order_integra.Base.{
  String, str_eq, ◌≡◌, ◌≢◌, ◌⊎◌, refl, Bool, true, false, Option, none, some, if◌then◌else◌, ok,
  err, str_length, arith,
}
use serverless_order_integra.Domain.Status.{submitted, delivered, status_eq, read_status}
use serverless_order_integra.Repository.Listing.{OrderListPosition}
use serverless_order_integra.Json.Text.{stringify}
use serverless_order_integra.Events.Patterns.{
  cursor_order_id_pattern, all_characters, is_base64url_character,
}
use serverless_order_integra.Http.OrderCursor.{
  OrderCursorScope, Platform, payload_value, encode, decode, invalid_cursor, split_dots, read_parts,
  decode_canonical, read_payload, cursor_status,
}
use serverless_order_integra.Http.OrderCursor.RoundTrip.{IsFaithful, decode-encode}
use serverless_order_integra.Http.OrderCursor.Signed.{IsSigned, decode-IsSigned}
use serverless_order_integra.Tests.Samples.{ten}

abbrev scope : OrderCursorScope
scope = record { merchant_id = "mrc_1"; status = some submitted }

abbrev asked : OrderCursorScope
asked = record { merchant_id = "mrc_1"; status = some delivered }

abbrev position : OrderListPosition
position = record { created_at = ten; order_id = "ord_12345678" }

-- Three buffers: the empty one, the payload and its signature.
abbrev written : Option Bool → String
written none = ""
written (some true) = "cGF5"
written (some false) = "c2ln"

abbrev read : String → Option Bool
read text = if str_eq text "" then none else some (str_eq text "cGF5")

abbrev same : Option Bool → Option Bool → Bool
same none none = true
same (some true) (some true) = true
same (some false) (some false) = true
same _ _ = false

abbrev platform : Platform (Option Bool)
platform = record {
  from_base64url = read;
  to_base64url = written;
  to_utf8 = λ text. some true;
  from_utf8 = λ bytes. stringify (payload_value scope position);
  sign = λ text. some false;
  same_bytes = same;
  parse = λ text. some (payload_value scope position);
  is_canonical = λ text. true;
}

letters_of : (b : Option Bool) → all_characters is_base64url_character (written b) ≡ true
letters_of none = refl
letters_of (some true) = refl
letters_of (some false) = refl

reads_back : (b : Option Bool) → read (written b) ≡ b
reads_back none = refl
reads_back (some true) = refl
reads_back (some false) = refl

is_same : (b : Option Bool) → same b b ≡ true
is_same none = refl
is_same (some true) = refl
is_same (some false) = refl

platform-IsFaithful : IsFaithful platform scope position
unfolding str_length
platform-IsFaithful = record {
  letters = letters_of;
  some_payload = refl;
  some_signature = refl;
  back = reads_back;
  same = is_same;
  text = refl;
  json = refl;
}

order_id_form : cursor_order_id_pattern "ord_12345678" ≡ true
unfolding cursor_order_id_pattern str_length
order_id_form = refl

token : encode platform scope position ≡ "cGF5.c2ln"
unfolding encode
token = refl

token_length : str_length (encode platform scope position) ≡ 9
unfolding encode str_length
token_length = refl

decode-encode_example :
    ((asked ≡ scope) × (decode platform (encode platform scope position) asked ≡ ok position))
    ⊎ ((asked ≢ scope)
        × (decode platform (encode platform scope position) asked ≡ err invalid_cursor))
decode-encode_example =
    decode-encode platform scope position platform-IsFaithful asked refl order_id_form
      (omega (arith, token_length)) (omega (arith, token_length))

decoding : decode platform "cGF5.c2ln" scope ≡ ok position
unfolding decode split_dots read_parts decode_canonical read_payload payload_value cursor_status
    cursor_order_id_pattern str_length status_eq read_status
decoding = refl

decode-IsSigned_example : IsSigned platform "cGF5.c2ln" scope position
decode-IsSigned_example = decode-IsSigned platform "cGF5.c2ln" scope position decoding
