-- ===== src/ClientIp/Select.antt =====
-- Which candidate is chosen, and what is sent on to the backend.
use emailjachai.Common.{
  String, ◌≡◌, refl, Bool, true, false, not, ◌&&◌, ◌||◌, Option, none, some, List, [], ◌∷◌, arith,
  str_eq, eq_iff, if◌then◌else◌, map, find, All, Bool-cases, inl, inr, ◌⊎◌, ◌∙◌, ap,
}
use emailjachai.Common.Text.{nullish}
use emailjachai.Http.Headers.{Headers, get, set, same_name, get-set}
use emailjachai.ClientIp.{
  candidates, normalize_ip, is_public, choose, get_client_ip, apply_client_ip_headers,
}

abbrev pub is_filled : String → Bool
is_filled ip = not (str_eq ip "")

-- The normalized addresses in the order of the candidates.
abbrev pub addresses : Headers → List String
addresses h = map normalize_ip (candidates h)

choose_lem :
    (fallback : String) (cs : List (Option String))
    → choose fallback cs
      ≡ nullish (find is_public (map normalize_ip cs)) (
          if str_eq fallback ""
          then nullish (find is_filled (map normalize_ip cs)) ""
          else fallback)
unfolding choose
choose_lem fallback [] = ground (arith, eq_iff fallback "")
choose_lem fallback (raw ∷ rest) = ground (
  arith,
  choose_lem (if str_eq fallback "" then normalize_ip raw else fallback) rest,
  eq_iff fallback "",
  eq_iff (normalize_ip raw) "",
)

-- The chosen address is the first public one in the order of the headers; with none, the first that is
-- not empty; with none of those, the empty text.
pub get_client_ip_lem :
    (h : Headers)
    → get_client_ip h
      ≡ nullish (find is_public (addresses h)) (nullish (find is_filled (addresses h)) "")
unfolding get_client_ip
get_client_ip_lem h = choose_lem "" (candidates h)

is_public_of_find :
    (xs : List String) (d : String)
    → (is_public (nullish (find is_public xs) d) ≡ true) ⊎ (find is_public xs ≡ none)
is_public_of_find [] d = inr refl
is_public_of_find (x ∷ xs) d = ground (arith, is_public_of_find xs d)

none_public : (xs : List String) → find is_public xs ≡ none → All (λ ip. is_public ip ≡ false) xs
none_public [] h = tt
none_public (x ∷ xs) h = (ground arith, none_public xs (ground arith))

-- A private address, or none, is chosen only where no candidate is public.
pub get_client_ip_private :
    (h : Headers)
    → is_public (get_client_ip h) ≡ false
    → All (λ ip. is_public ip ≡ false) (addresses h)
get_client_ip_private h e = elim (is_public_of_find (addresses h) first) [
  | inl p ↦ absurd (cc (ap is_public (get_client_ip_lem h), p))
  | inr n ↦ none_public (addresses h) n
]
  where
    first : String
    first = nullish (find is_filled (addresses h)) ""

-- The four names that carry the address to the backend.
abbrev pub is_ip_name : String → Bool
is_ip_name k =
    same_name "X-Forwarded-For" k
    || same_name "X-Real-IP" k
    || same_name "X-EJP-Client-IP" k
    || same_name "CF-Connecting-IP" k

get-set_four :
    (n₁ n₂ n₃ n₄ k v : String) (t : Headers)
    → get k (set n₄ v (set n₃ v (set n₂ v (set n₁ v t)))) ≡ (
        if same_name n₁ k || same_name n₂ k || same_name n₃ k || same_name n₄ k
        then some v
        else get k t)
get-set_four n₁ n₂ n₃ n₄ k v t = ground (
  arith,
  get-set n₁ k v t,
  get-set n₂ k v (set n₁ v t),
  get-set n₃ k v (set n₂ v (set n₁ v t)),
  get-set n₄ k v (set n₃ v (set n₂ v (set n₁ v t))),
)

apply_kept :
    (target source : Headers)
    → is_public (get_client_ip source) ≡ false
    → apply_client_ip_headers target source ≡ target
unfolding apply_client_ip_headers
apply_kept target source h = ground arith

apply_sets :
    (target source : Headers)
    → is_public (get_client_ip source) ≡ true
    → apply_client_ip_headers target source
      ≡ set "CF-Connecting-IP" (get_client_ip source) (
          set "X-EJP-Client-IP" (get_client_ip source) (
            set "X-Real-IP"
              (get_client_ip source)
              (set "X-Forwarded-For" (get_client_ip source) target)))
unfolding apply_client_ip_headers
apply_sets target source h = ground arith

-- What the backend is told: under the four names, the chosen address if it is public; under every other
-- name, and under the four where the chosen address is empty or private, what the target had.
pub get-apply_client_ip_headers :
    (target source : Headers) (k : String)
    → get k (apply_client_ip_headers target source) ≡ (
        if is_public (get_client_ip source) && is_ip_name k
        then some (get_client_ip source)
        else get k target)
get-apply_client_ip_headers target source k = elim (Bool-cases (is_public (get_client_ip source))) [
  | inl e ↦ rw e (ap (get k) (apply_sets target source e) ∙ get-set_four _ _ _ _ k _ target)
  | inr e ↦ rw e (ap (get k) (apply_kept target source e))
]
