-- ===== src/Logger/Clean.antt =====
-- What a redacted object still shows.
use emailjachai.Common.{
  ℕ, ◌≡◌, refl, any, sym, subst, map, ap, ◌∙◌, String, Bool, true, false, ◌⊎◌, inl, inr, Option,
  none, some, List, [], ◌∷◌, arith, str_eq, eq_iff, if◌then◌else◌, Bool-cases, ◌==◌,
}
use emailjachai.Common.Text.{codes, lower, to_lower, includes, starts_with}
use emailjachai.Logger.{
  Json, null, boolean, number, text, array, object, Fields, no_fields, field, is_sensitive,
  redacted, process, process_value,
}

-- The value under a key, and along a path of keys through objects.
abbrev pub value_of : String → Fields → Option Json
value_of key no_fields = none
value_of key (field k v rest) = if str_eq k key then some v else value_of key rest

abbrev pub inside : Option Json → Fields
inside none = no_fields
inside (some null) = no_fields
inside (some (boolean b)) = no_fields
inside (some (number n)) = no_fields
inside (some (text s)) = no_fields
inside (some (array xs)) = no_fields
inside (some (object fs)) = fs

abbrev pub value_at : List String → String → Fields → Option Json
value_at [] key fs = value_of key fs
value_at (k ∷ path) key fs = value_at path key (inside (value_of k fs))

-- What the loop makes of the value under a key.
abbrev pub shown : String → Option Json → Option Json
shown key none = none
shown key (some v) = some (if is_sensitive key then redacted else process_value v)

value_of-process :
    (key : String) (fs : Fields) → value_of key (process fs) ≡ shown key (value_of key fs)
unfolding process
value_of-process key no_fields = refl
value_of-process key (field k v rest) = elim (Bool-cases (str_eq k key)) [
  | inl e ↦
      rw e
        (ap (λ n. some (if is_sensitive n then redacted else process_value v)) ((eq_iff k key).0 e))
  | inr e ↦ rw e (value_of-process key rest)
]

inside-process_value : (v : Json) → inside (some (process_value v)) ≡ process (inside (some v))
unfolding process process_value
inside-process_value null = refl
inside-process_value (boolean b) = refl
inside-process_value (number n) = refl
inside-process_value (text s) = refl
inside-process_value (array xs) = refl
inside-process_value (object fs) = refl

inside-shown :
    (key : String) (o : Option Json)
    → (inside (shown key o) ≡ no_fields) ⊎ (inside (shown key o) ≡ process (inside o))
inside-shown key none = inl refl
inside-shown key (some v) = elim (Bool-cases (is_sensitive key)) [
  | inl e ↦ inl (rw e refl)
  | inr e ↦ inr (rw e (inside-process_value v))
]

nothing_inside : (path : List String) (key : String) → value_at path key no_fields ≡ none
nothing_inside [] key = refl
nothing_inside (k ∷ path) key = nothing_inside path key

shown_sensitive :
    (key : String) (o : Option Json)
    → is_sensitive key ≡ true
    → (shown key o ≡ none) ⊎ (shown key o ≡ some redacted)
shown_sensitive key none h = inl refl
shown_sensitive key (some v) h = inr (rw h refl)

-- A capital letter is in no text in lower case.
lower-ne-K : (n : ℕ) → (lower n == 75) ≡ false
lower-ne-K n = ground arith

starts_with-api_key : (xs : List ℕ) → starts_with (map lower xs) (codes "apiKey") ≡ false
starts_with-api_key [] = refl
starts_with-api_key (a ∷ []) = ground arith
starts_with-api_key (a ∷ b ∷ []) = ground arith
starts_with-api_key (a ∷ b ∷ c ∷ []) = ground arith
starts_with-api_key (a ∷ b ∷ c ∷ d ∷ xs) = ground (arith, lower-ne-K d)

api_key_unfound : (xs : List ℕ) → includes (map lower xs) (codes "apiKey") ≡ false
api_key_unfound [] = refl
api_key_unfound (x ∷ xs) = ground (arith, starts_with-api_key (x ∷ xs), api_key_unfound xs)

-- The key `apiKey`, which is spelled with a capital, is never found in a name in lower case: a name is
-- sensitive exactly when it contains one of the other six.
pub is_sensitive_lem :
    (key : String)
    → is_sensitive key
      ≡ any
          (λ sk. includes (to_lower key) (codes sk))
          ("password" ∷ "token" ∷ "secret" ∷ "credit_card" ∷ "cvv" ∷ "authorization" ∷ [])
unfolding is_sensitive
is_sensitive_lem key = ground (arith, api_key_unfound (codes key))

value_at_sensitive :
    (path : List String) (key : String) (fs : Fields)
    → is_sensitive key ≡ true
    → (value_at path key (process fs) ≡ none) ⊎ (value_at path key (process fs) ≡ some redacted)
value_at_sensitive [] key fs h = rw (value_of-process key fs) (shown_sensitive key _ h)
value_at_sensitive (k ∷ path) key fs h = elim (inside-shown k (value_of k fs)) [
  | inl e ↦
      inl (ap (value_at path key) (ap inside (value_of-process k fs) ∙ e) ∙ nothing_inside path key)
  | inr e ↦
      subst (λ f. (value_at path key f ≡ none) ⊎ (value_at path key f ≡ some redacted))
        (sym (ap inside (value_of-process k fs) ∙ e))
        (value_at_sensitive path key (inside (value_of k fs)) h)
]

-- Whether a name contains one of six words, in capital or small letters.
abbrev pub has_secret_word : String → Bool
has_secret_word key =
    any (λ w. includes (to_lower key) (codes w))
      ("password" ∷ "token" ∷ "secret" ∷ "credit_card" ∷ "cvv" ∷ "authorization" ∷ [])

-- A value that is left under its key, redacted inside if it is an object.
abbrev pub kept : Option Json → Option Json
kept none = none
kept (some v) = some (process_value v)

shown-kept : (key : String) (o : Option Json) → is_sensitive key ≡ false → shown key o ≡ kept o
shown-kept key none h = refl
shown-kept key (some v) h = rw h refl

api_key_insensitive : is_sensitive "apiKey" ≡ false
unfolding is_sensitive
api_key_insensitive = refl

-- Along any path of keys through nested objects, a redacted object has nothing, or the mark of the
-- redaction, under a key that contains one of the words password, token, secret, credit_card, cvv and
-- authorization, in capital or small letters. Under the key apiKey it still has its value, redacted
-- inside if that is an object.
pub value_at-process :
    (path : List String) (key : String) (fs : Fields)
    → has_secret_word key ≡ true
    → ((value_at path key (process fs) ≡ none) ⊎ (value_at path key (process fs) ≡ some redacted))
      × (value_of "apiKey" (process fs) ≡ kept (value_of "apiKey" fs))
value_at-process path key fs h = (
  value_at_sensitive path key fs (is_sensitive_lem key ∙ h),
  value_of-process "apiKey" fs ∙ shown-kept "apiKey" (value_of "apiKey" fs) api_key_insensitive,
)
