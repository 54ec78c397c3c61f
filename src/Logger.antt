-- ===== src/Logger.antt =====
-- frontend/lib/logger.ts: what `redact` does to an object, once it is serialized to plain data.
pub mod Clean
mod Tests
use emailjachai.Common.{
  ℕ, String, Bool, true, false, Option, none, some, List, [], ◌∷◌, any, if◌then◌else◌, str_eq,
}
use emailjachai.Common.Text.{codes, to_lower, includes}

-- The value of `JSON.parse`, the items of an array, and the keys of an object in their order.
mutual
  pub data Json : Type 0 where
    null : Json
    boolean : Bool → Json
    number : ℕ → Json
    text : String → Json
    array : Items → Json
    object : Fields → Json

  pub data Items : Type 0 where
    no_items : Items
    item : Json → Items → Items

  pub data Fields : Type 0 where
    no_fields : Fields
    field : String → Json → Fields → Fields

abbrev pub sensitive_keys : List String
sensitive_keys =
    "password" ∷ "apiKey" ∷ "token" ∷ "secret" ∷ "credit_card" ∷ "cvv" ∷ "authorization" ∷ []

unfoldable pub is_sensitive : String → Bool
is_sensitive key = any (λ sk. includes (to_lower key) (codes sk)) sensitive_keys

abbrev pub redacted : Json
redacted = text "[REDACTED]"

-- The loop of `process` over the keys of an object; an array is left as it is.
unfoldable mutual
  pub process : Fields → Fields
  process no_fields = no_fields
  process (field key value rest) =
      let inner = process_value value in
      field key (if is_sensitive key then redacted else inner) (process rest)

  pub process_value : Json → Json
  process_value null = null
  process_value (boolean b) = boolean b
  process_value (number n) = number n
  process_value (text s) = text s
  process_value (array xs) = array xs
  process_value (object fs) = object (process fs)
