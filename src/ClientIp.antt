-- ===== src/ClientIp.antt =====
-- frontend/lib/client-ip.ts: the address of the caller behind proxies.
pub mod Select
pub mod Port
pub mod Blocks
mod Tests
use Prim.Native.Char.{Char, code}
use Prim.Native.String.{String, [], ◌∷◌}
use emailjachai.Common.{
  ℕ, suc, ◌+◌, ◌-◌, ◌*◌, ◌≡◌, Bool, true, false, not, ◌&&◌, ◌||◌, Option, none, some, List, [], ◌∷◌,
  ◌++◌, str_eq, ◌==◌, leb, if◌then◌else◌, length, filter, map,
}
use emailjachai.Common.Text.{trim, to_lower, codes, codes_eq, starts_with, is_digit, nullish}
use emailjachai.Http.Headers.{Headers, get, set}

infixl 5 ◌>>=◌
abbrev ◌>>=◌ : {A B : Type 0} → Option A → (A → Option B) → Option B
none >>= f = none
some a >>= f = f a

-- The part before the first character with the code; `none` where there is none.
pub before : ℕ → String → Option String
before k [] = none
before k (c ∷ s) =
    let rest = before k s in
    if code c == k then some "" else elim rest [ none ↦ none | some t ↦ some (c ∷ t) ]

-- `text.split(',')`.
pub split_commas : String → List String
split_commas [] = "" ∷ []
split_commas (c ∷ s) = elim (split_commas s) [
  | [] ↦ []
  | p ∷ ps ↦ if code c == b',' then "" ∷ p ∷ ps else (c ∷ p) ∷ ps
]

unfoldable pub forwarded_ips : Option String → List String
forwarded_ips none = []
forwarded_ips (some xff) =
    if str_eq xff ""
    then []
    else filter (λ part. not (str_eq part "")) (map trim (split_commas xff))

-- A run of digits at the front, and what follows it.
pub span_digits : String → List ℕ × String
span_digits [] = ([], "")
span_digits (c ∷ s) =
    let rest = span_digits s in if is_digit (code c) then (code c ∷ rest.0, rest.1) else ([], c ∷ s)

pub value_from : ℕ → List ℕ → ℕ
value_from n [] = n
value_from n (d ∷ ds) = value_from (n * 10 + (d - b'0')) ds

-- `\d{1,3}` where no digit follows.
unfoldable pub octet : String → Option (ℕ × String)
octet s =
    let (ds, rest) = span_digits s in
    if leb 1 (length ds) && leb (length ds) 3 then some (value_from 0 ds, rest) else none

pub skip : ℕ → String → Option String
skip k [] = none
skip k (c ∷ s) = if code c == k then some s else none

-- `\d{1,3}(?:\.\d{1,3}){3}` at the front: the first two numbers and what follows.
unfoldable pub dotted : String → Option (ℕ × ℕ × String)
dotted s = do
  (a, s₁) ← octet s
  s₂ ← skip b'.' s₁
  (b, s₃) ← octet s₂
  s₄ ← skip b'.' s₃
  (c, s₅) ← octet s₄
  s₆ ← skip b'.' s₅
  (d, s₇) ← octet s₆
  some (a, b, s₇)

-- `:\d+` and nothing else.
unfoldable pub is_port : String → Bool
is_port [] = false
is_port (c ∷ s) =
    let (ds, rest) = span_digits s in code c == b':' && leb 1 (length ds) && str_eq rest ""

unfoldable pub strip_brackets : String → String
strip_brackets [] = ""
strip_brackets (c ∷ s) = if code c == b'[' then nullish (before b']' s) (c ∷ s) else c ∷ s

unfoldable pub strip_port : String → String
strip_port ip = elim (dotted ip) [
  | none ↦ ip
  | some (a, b, rest) ↦ if is_port rest then nullish (before b':' ip) ip else ip
]

unfoldable pub normalize_ip : Option String → String
normalize_ip none = ""
normalize_ip (some value) =
    let ip = trim value in if str_eq ip "" then "" else strip_port (strip_brackets ip)

-- The test on the first two numbers of an IPv4 address.
abbrev pub is_private_v4 : ℕ → ℕ → Bool
is_private_v4 a b =
    a == 10
    || a == 127
    || (a == 172 && leb 16 b && leb b 31)
    || (a == 192 && b == 168)
    || (a == 169 && b == 254)
    || a == 0
    || (a == 100 && leb 64 b && leb b 127)

abbrev pub is_private_v6 : List ℕ → Bool
is_private_v6 lower =
    codes_eq lower (codes "::1")
    || codes_eq lower (codes "::")
    || starts_with lower (codes "fc")
    || starts_with lower (codes "fd")
    || starts_with lower (codes "fe80:")

unfoldable pub is_private_or_reserved_ip : String → Bool
is_private_or_reserved_ip ip = elim (dotted ip) [
  | none ↦ is_private_v6 (to_lower ip)
  | some (a, b, rest) ↦ if str_eq rest "" then is_private_v4 a b else is_private_v6 (to_lower ip)
]

abbrev pub candidates : Headers → List (Option String)
candidates h =
    get "cf-connecting-ip" h
    ∷ get "true-client-ip" h
    ∷ get "x-ejp-client-ip" h
    ∷ (map some (forwarded_ips (get "x-forwarded-for" h)) ++ get "x-real-ip" h ∷ [])

abbrev pub is_public : String → Bool
is_public ip = not (str_eq ip "") && not (is_private_or_reserved_ip ip)

-- The loop over the candidates with its `fallback`.
pub choose : String → List (Option String) → String
choose fallback [] = fallback
choose fallback (raw ∷ rest) =
    let ip = normalize_ip raw in
    let later = choose (if str_eq fallback "" then ip else fallback) rest in
    if is_public ip then ip else later

unfoldable pub get_client_ip : Headers → String
get_client_ip h = choose "" (candidates h)

unfoldable pub apply_client_ip_headers : Headers → Headers → Headers
apply_client_ip_headers target source =
    let ip = get_client_ip source in
    if str_eq ip "" || is_private_or_reserved_ip ip
    then target
    else set "CF-Connecting-IP" ip
        (set "X-EJP-Client-IP" ip (set "X-Real-IP" ip (set "X-Forwarded-For" ip target)))

unfoldable pub get_client_ip_debug : Headers → List (String × Option String)
get_client_ip_debug h =
    ("detected", (if str_eq (get_client_ip h) "" then none else some (get_client_ip h)))
    ∷ ("cf-connecting-ip", get "cf-connecting-ip" h)
    ∷ ("true-client-ip", get "true-client-ip" h)
    ∷ ("x-real-ip", get "x-real-ip" h)
    ∷ ("x-forwarded-for", get "x-forwarded-for" h)
    ∷ ("x-forwarded-proto", get "x-forwarded-proto" h)
    ∷ ("x-ejp-client-ip", get "x-ejp-client-ip" h)
    ∷ []
