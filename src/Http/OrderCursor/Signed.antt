-- ===== src/Http/OrderCursor/Signed.antt =====
-- Which tokens `decode` accepts.
use serverless_order_integra.Base.{
  ◌==◌, String, str_length, str_eq, ◌≡◌, true, ◌&&◌, leb, some, List, [], ◌∷◌, ok, arith,
  Result-cases, Option-cases, Bool-cases, inl, inr, ◌||◌,
}
use serverless_order_integra.Repository.Listing.{OrderListPosition}
use serverless_order_integra.Json.{Value}
use serverless_order_integra.Http.OrderCursor.{
  OrderCursorScope, CursorPayload, max_cursor_length, read_payload, opt_status_eq, split_dots,
  two_parts, Platform, decode_canonical, check_signature, read_parts, decode,
}

-- A token of two parts of which the second is the signature of the first, and the first holds a
-- payload for the scope.
pub record IsSigned {Bytes : Type 0} (platform : Platform Bytes) (token : String)
    (scope : OrderCursorScope) (position : OrderListPosition) : Type 0 where
  pub payload : String
  pub signature : String
  pub parts : split_dots token ≡ payload ∷ signature ∷ []
  pub signed :
      platform.same_bytes (platform.from_base64url signature) (platform.sign payload) ≡ true
  pub value : Value
  pub parsed : platform.parse (platform.from_utf8 (platform.from_base64url payload)) ≡ some value
  pub content : CursorPayload
  pub reads : read_payload platform.is_canonical (some value) ≡ ok content
  pub for_scope :
      (str_eq content.merchant_id scope.merchant_id && opt_status_eq content.status scope.status)
      ≡ true
  pub created_at : position.created_at ≡ content.created_at
  pub order_id : position.order_id ≡ content.order_id

found_parts :
    (words : List String) (p : String × String) → two_parts words ≡ some p → words ≡ p.0 ∷ p.1 ∷ []
found_parts [] p h = cc
found_parts (a ∷ []) p h = cc
found_parts (a ∷ b ∷ []) p h = elim (Bool-cases (str_length a == 0 || str_length b == 0)) [
  | inl y ↦ let g = rw (y) at h in cc
  | inr n ↦ let g = rw (n) at h in cc
]
found_parts (a ∷ b ∷ c ∷ ws) p h = cc

module _ {Bytes : Type 0} (platform : Platform Bytes) where
  decoded_is :
      (value : String) (b : Bytes)
      → decode_canonical platform value ≡ ok b
      → b ≡ platform.from_base64url value
  unfolding decode_canonical
  decoded_is value b h = ground arith

  signature_is_checked :
      (payload signature : String) (u : Unit {0})
      → check_signature platform payload signature ≡ ok u
      → platform.same_bytes (platform.from_base64url signature) (platform.sign payload) ≡ true
  signature_is_checked payload signature u h =
      elim (Result-cases (decode_canonical platform signature)) [
        | inr (e, n) ↦ let g = rw (n) at h in cc
        | inl (b, y) ↦ elim (Bool-cases (platform.same_bytes b (platform.sign payload))) [
          | inl t ↦ cc (decoded_is signature b y)
          | inr f ↦ let g = rw (y, f) at h in cc
        ]
      ]

  parts-IsSigned :
      (token : String) (scope : OrderCursorScope) (position : OrderListPosition)
      (p : String × String)
      → split_dots token ≡ p.0 ∷ p.1 ∷ []
      → read_parts platform scope p.0 p.1 ≡ ok position
      → IsSigned platform token scope position
  unfolding read_parts
  parts-IsSigned token scope position p s h =
      elim (Result-cases (check_signature platform p.0 p.1)) [
        | inr (e, n) ↦ let g = rw (n) at h in cc
        | inl (u, a) ↦ elim (Result-cases (decode_canonical platform p.0)) [
          | inr (e, n) ↦ let g = rw (a, n) at h in cc
          | inl (bytes, b) ↦ elim (Option-cases (platform.parse (platform.from_utf8 bytes))) [
            | inl n ↦ let g = rw (a, b, n) at h in cc
            | inr (value, c) ↦
                elim (Result-cases (read_payload platform.is_canonical (some value))) [
                  | inr (e, n) ↦ let g = rw (a, b, c, n) at h in cc
                  | inl (content, d) ↦
                      elim (Bool-cases (
                        str_eq content.merchant_id scope.merchant_id
                        && opt_status_eq content.status scope.status)) [
                          | inr n ↦ let g = rw (a, b, c, d, n) at h in cc
                          | inl y ↦
                              let g = rw (a, b, c, d, y) at h in
                              record {
                                payload = p.0;
                                signature = p.1;
                                parts = s;
                                signed = signature_is_checked p.0 p.1 u a;
                                value = value;
                                parsed = rw⁻¹ (decoded_is p.0 bytes b) c;
                                content = content;
                                reads = d;
                                for_scope = y;
                                created_at = cc;
                                order_id = cc;
                              }
                        ]
                ]
          ]
        ]
      ]

  -- A token that is accepted has two parts, of which the second is the signature of the first under
  -- the codec's secret; the first holds a well-formed payload for the merchant and the status that
  -- are asked for, and the position is the payload's.
  pub decode-IsSigned :
      (token : String) (scope : OrderCursorScope) (position : OrderListPosition)
      → decode platform token scope ≡ ok position
      → IsSigned platform token scope position
  unfolding decode
  decode-IsSigned token scope position h =
      elim (Bool-cases (leb 1 (str_length token) && leb (str_length token) max_cursor_length)) [
        | inr n ↦ let g = rw (n) at h in cc
        | inl y ↦ elim (Option-cases (two_parts (split_dots token))) [
          | inl n ↦ let g = rw (y, n) at h in cc
          | inr (p, e) ↦
              parts-IsSigned token scope position p (found_parts (split_dots token) p e)
                (rw (y, e) at h)
        ]
      ]
