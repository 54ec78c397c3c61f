-- ===== src/Logger/Tests.antt =====
-- A redacted answer of a login.
use emailjachai.Common.{◌≡◌, refl, none, some, [], ◌∷◌, ◌⊎◌}
use emailjachai.Logger.{text, object, Fields, no_fields, field, is_sensitive, redacted, process}
use emailjachai.Logger.Clean.{value_of, value_at, kept, value_at-process}

abbrev login : Fields
login =
    field "user" (object (field "accessToken" (text "t") (field "apiKey" (text "k") no_fields)))
      (field "apiKey" (text "k") no_fields)

value_at-process_example :
    ((value_at ("user" ∷ []) "accessToken" (process login) ≡ none)
      ⊎ (value_at ("user" ∷ []) "accessToken" (process login) ≡ some redacted))
    × (value_of "apiKey" (process login) ≡ kept (value_of "apiKey" login))
value_at-process_example = value_at-process ("user" ∷ []) "accessToken" login refl

-- So an API key passes.
api_key_shown : value_at ("user" ∷ []) "apiKey" (process login) ≡ some (text "k")
unfolding process is_sensitive
api_key_shown = refl
