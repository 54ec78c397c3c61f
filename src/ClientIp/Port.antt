-- ===== src/ClientIp/Port.antt =====
-- An IPv4 address with a port is read as the address alone.
use Prim.Native.Char.{Char, code}
use Prim.Native.String.{String, [], ◌∷◌}
use text.Mathlib.TextLemmas.{
  nil-append, cons-append, append_assoc, append-ne-nil_of_right_ne-nil, cons-ne-nil,
}
use emailjachai.Common.{
  ℕ, ◌≤◌, ◌≡◌, ◌≢◌, refl, sym, ap, ◌∙◌, Bool, true, false, not, ◌&&◌, ◌||◌, some, [], ◌∷◌, arith,
  str_eq-false, ◌==◌, length, if◌then◌else◌,
}
use emailjachai.Common.Text.{◌&◌, codes, trim, trim_start, trim_end, is_space, is_digit, nullish}
use emailjachai.ClientIp.{
  before, span_digits, value_from, octet, skip, dotted, is_port, strip_brackets, strip_port,
  normalize_ip,
}

-- Every character passes the test.
abbrev pub AllChars : (ℕ → Bool) → String → Type 0
AllChars p [] = Unit
AllChars p (c ∷ s) = (p (code c) ≡ true) × AllChars p s

abbrev pub IsDigits : String → Type 0
IsDigits = AllChars is_digit

AllChars-append : (p : ℕ → Bool) (s t : String) → AllChars p s → AllChars p t → AllChars p (s & t)
AllChars-append p [] t h k = rw nil-append k
AllChars-append p (c ∷ s) t (q, h) k = rw cons-append (q, AllChars-append p s t h k)

AllChars-mono :
    (p q : ℕ → Bool)
    → ((n : ℕ) → p n ≡ true → q n ≡ true)
    → (s : String) → AllChars p s
    → AllChars q s
AllChars-mono p q f [] h = tt
AllChars-mono p q f (c ∷ s) (k, h) = (f (code c) k, AllChars-mono p q f s h)

-- One to three digits.
abbrev pub IsOctet : String → Type 0
IsOctet s = IsDigits s × (1 ≤ length (codes s)) × (length (codes s) ≤ 3)

span_digits-append :
    (s : String) (c : Char) (t : String)
    → IsDigits s
    → is_digit (code c) ≡ false
    → span_digits (s & (c ∷ t)) ≡ (codes s, c ∷ t)
unfolding span_digits
span_digits-append [] c t h n = rw nil-append (rw n refl)
span_digits-append (d ∷ s) c t (p, h) n = rw cons-append (rw (p, span_digits-append s c t h n) refl)

span_digits_all : (s : String) → IsDigits s → span_digits s ≡ (codes s, "")
unfolding span_digits
span_digits_all [] h = refl
span_digits_all (d ∷ s) (p, h) = rw (p, span_digits_all s h) refl

pub octet-append :
    (s : String) (c : Char) (t : String)
    → IsOctet s
    → is_digit (code c) ≡ false
    → octet (s & (c ∷ t)) ≡ some (value_from 0 (codes s), c ∷ t)
unfolding octet
octet-append s c t (h, lo, hi) n = rw (span_digits-append s c t h n, octet) (ground arith)

pub octet_all : (s : String) → IsOctet s → octet s ≡ some (value_from 0 (codes s), "")
unfolding octet
octet_all s (h, lo, hi) = rw (span_digits_all s h, octet) (ground arith)

-- A digit or a dot.
abbrev is_plain : ℕ → Bool
is_plain n = is_digit n || n == b'.'

plain_of_digit : (n : ℕ) → is_digit n ≡ true → is_plain n ≡ true
plain_of_digit n h = ground arith

abbrev is_ink : ℕ → Bool
is_ink n = not (is_space n)

ink_of_plain : (n : ℕ) → is_plain n ≡ true → is_ink n ≡ true
unfolding is_space
ink_of_plain n h = ground arith

trim_end_ink : (s : String) → AllChars is_ink s → trim_end s ≡ s
unfolding trim_end
trim_end_ink [] h = refl
trim_end_ink (c ∷ s) (p, h) = rw (trim_end_ink s h) (shut_if (code c) _ _ _ p)
  where
    shut_if :
        (n : ℕ) (q : Bool) (x y : String) → is_ink n ≡ true → (if is_space n && q then x else y) ≡ y
    shut_if n q x y p = ground arith

trim_start_ink : (c : Char) (s : String) → is_ink (code c) ≡ true → trim_start (c ∷ s) ≡ c ∷ s
unfolding trim_start
trim_start_ink c s p = ground arith

trim_ink : (s : String) → AllChars is_ink s → trim s ≡ s
unfolding trim trim_start
trim_ink [] h = refl
trim_ink (c ∷ s) (p, h) = ap trim_end (trim_start_ink c s p) ∙ trim_end_ink (c ∷ s) (p, h)

-- `a.b.c.d`.
abbrev pub address : (a b c d : String) → String
address a b c d = a & ("." ∷ (b & ("." ∷ (c & ("." ∷ d)))))

address-append :
    (a b c d t : String) → address a b c d & t ≡ a & ("." ∷ (b & ("." ∷ (c & ("." ∷ (d & t))))))
address-append a b c d t = simp (append_assoc, cons-append)

dotted_address :
    (a b c d : String) (k : Char) (t : String)
    → IsOctet a
    → IsOctet b
    → IsOctet c
    → IsOctet d
    → is_digit (code k) ≡ false
    → dotted (address a b c d & (k ∷ t))
      ≡ some (value_from 0 (codes a), value_from 0 (codes b), k ∷ t)
unfolding dotted skip
dotted_address a b c d k t ha hb hc hd n =
    rw
      (
        address-append a b c d (k ∷ t),
        octet-append a "." _ ha refl,
        octet-append b "." _ hb refl,
        octet-append c "." _ hc refl,
        octet-append d k t hd n,
      )
      refl

before-append :
    (p : ℕ → Bool) (k : ℕ) (s : String) (c : Char) (t : String)
    → ((n : ℕ) → p n ≡ true → (n == k) ≡ false)
    → AllChars p s
    → code c ≡ k
    → before k (s & (c ∷ t)) ≡ some s
unfolding before
before-append p k [] c t f h e = rw nil-append (ground (arith, e))
before-append p k (x ∷ s) c t f (q, h) e =
    rw cons-append (rw (f (code x) q, before-append p k s c t f h e) refl)

address-AllChars :
    (a b c d : String)
    → IsOctet a
    → IsOctet b
    → IsOctet c
    → IsOctet d
    → AllChars is_plain (address a b c d)
address-AllChars a b c d ha hb hc hd = join a _ ha (join b _ hb (join c _ hc (plain d hd)))
  where
    plain : (s : String) → IsOctet s → AllChars is_plain s
    plain s (h, _, _) = AllChars-mono is_digit is_plain plain_of_digit s h

    join : (s t : String) → IsOctet s → AllChars is_plain t → AllChars is_plain (s & ("." ∷ t))
    join s t h k = AllChars-append is_plain s ("." ∷ t) (plain s h) (refl, k)

strip_brackets_kept : (a t : String) → IsOctet a → strip_brackets (a & t) ≡ a & t
unfolding strip_brackets
strip_brackets_kept [] t (_, lo, _) = absurd (omega arith)
strip_brackets_kept (c ∷ s) t ((p, _), _, _) = rw cons-append (ground arith)

is_port_digits :
    (port : String) → IsDigits port → 1 ≤ length (codes port) → is_port (":" ∷ port) ≡ true
unfolding is_port
is_port_digits port h lo = rw (span_digits_all port h) (ground arith)

not_colon : (n : ℕ) → is_plain n ≡ true → (n == b':') ≡ false
not_colon n h = ground arith

colon_ink : is_ink (code ":") ≡ true
unfolding is_space
colon_ink = refl

strip_port_address :
    (a b c d port : String)
    → IsOctet a
    → IsOctet b
    → IsOctet c
    → IsOctet d
    → IsDigits port
    → 1 ≤ length (codes port)
    → strip_port (address a b c d & (":" ∷ port)) ≡ address a b c d
unfolding strip_port
strip_port_address a b c d port ha hb hc hd hp lo =
    rw (dotted_address a b c d ":" port ha hb hc hd refl, strip_port)
      (rw (is_port_digits port hp lo) (
        ap (λ o. nullish o (address a b c d & (":" ∷ port)))
          (before-append is_plain b':' (address a b c d) ":" port not_colon
            (address-AllChars a b c d ha hb hc hd) refl)))

-- A port behind an IPv4 address is dropped: for four groups of one to three digits and a nonempty run
-- of digits as the port, the text `a.b.c.d:port` is read as `a.b.c.d`.
pub normalize_ip_port :
    (a b c d port : String)
    → IsOctet a
    → IsOctet b
    → IsOctet c
    → IsOctet d
    → IsDigits port
    → 1 ≤ length (codes port)
    → normalize_ip (some (address a b c d & (":" ∷ port))) ≡ address a b c d
unfolding normalize_ip
normalize_ip_port a b c d port ha hb hc hd hp lo =
    rw (trim_ink whole ink, str_eq-false whole "" filled, kept)
      (strip_port_address a b c d port ha hb hc hd hp lo)
  where
    whole : String
    whole = address a b c d & (":" ∷ port)

    plain : AllChars is_plain (address a b c d)
    plain = address-AllChars a b c d ha hb hc hd

    ink : AllChars is_ink whole
    ink =
        AllChars-append is_ink (address a b c d) (":" ∷ port)
          (AllChars-mono is_plain is_ink ink_of_plain _ plain)
          (
            colon_ink,
            AllChars-mono is_digit is_ink (λ n h. ink_of_plain n (plain_of_digit n h)) port hp,
          )

    filled : whole ≢ ""
    filled = append-ne-nil_of_right_ne-nil (address a b c d) (cons-ne-nil ":" port)

    kept : strip_brackets whole ≡ whole
    kept =
        ap strip_brackets (address-append a b c d (":" ∷ port))
        ∙ strip_brackets_kept a _ ha
        ∙ sym (address-append a b c d (":" ∷ port))
