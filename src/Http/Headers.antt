-- ===== src/Http/Headers.antt =====
-- `Headers` of the Fetch API: names are compared without case, a name stands once, and `Set-Cookie`
-- lines are kept apart from each other.
use emailjachai.Common.{
  ℕ, String, ◌≡◌, refl, Bool, Option, none, some, List, [], ◌∷◌, ◌++◌, arith, if◌then◌else◌,
}
use emailjachai.Common.Text.{to_lower, codes_eq, codes_eq_iff}
use emailjachai.Common.Keyed.{Key}

-- A name in lower case, by its characters.
abbrev pub Name : Type 0
Name = List ℕ

instance abbrev pub name_key : Key Name
name_key = record { same = codes_eq; same_iff = codes_eq_iff }

pub record Headers : Type 0 where
  pub entries : List (Name × String)
  pub set_cookies : List String

abbrev pub empty : Headers
empty = record { entries = []; set_cookies = [] }

unfoldable pub lookup : Name → List (Name × String) → Option String
lookup k [] = none
lookup k ((j, v) ∷ rest) = if codes_eq j k then some v else lookup k rest

unfoldable pub insert : Name → String → List (Name × String) → List (Name × String)
insert k v [] = (k, v) ∷ []
insert k v ((j, w) ∷ rest) = if codes_eq j k then (k, v) ∷ rest else (j, w) ∷ insert k v rest

pub lookup-insert :
    (k j : Name) (v : String) (m : List (Name × String))
    → lookup j (insert k v m) ≡ (if codes_eq k j then some v else lookup j m)
unfolding lookup insert
lookup-insert k j v [] = refl
lookup-insert k j v ((i, w) ∷ m) =
    ground (arith, codes_eq_iff k j, codes_eq_iff i k, codes_eq_iff i j, lookup-insert k j v m)

-- `headers.get(name)`.
unfoldable pub get : String → Headers → Option String
unfolding lookup
get name h = lookup (to_lower name) h.entries

-- `headers.set(name, value)`.
unfoldable pub set : String → String → Headers → Headers
unfolding insert
set name v h = record h { entries = insert (to_lower name) v h.entries }

-- `headers.append('Set-Cookie', value)`.
unfoldable pub append_set_cookie : String → Headers → Headers
append_set_cookie v h = record h { set_cookies = h.set_cookies ++ v ∷ [] }

-- Whether two names are one name to `Headers`.
unfoldable pub same_name : String → String → Bool
same_name n m = codes_eq (to_lower n) (to_lower m)

pub get-set :
    (n m v : String) (h : Headers) → get m (set n v h) ≡ (if same_name n m then some v else get m h)
unfolding get set same_name
get-set n m v h = lookup-insert (to_lower n) (to_lower m) v h.entries
