-- ===== src/ClientIp/Blocks.antt =====
-- Private and reserved IPv4 addresses as blocks of 32-bit numbers.
use Prim.Native.String.{String}
use emailjachai.Common.{
  ℕ, ◌+◌, ◌*◌, ◌/◌, ◌-◌, ◌^◌, ◌<◌, ◌≡◌, refl, sym, ◌∙◌, Bool, ◌&&◌, ◌||◌, some, arith, ◌==◌, leb,
}
use emailjachai.Common.Text.{codes}
use emailjachai.ClientIp.{value_from, skip, dotted, is_private_v4, is_private_or_reserved_ip}
use emailjachai.ClientIp.Port.{IsOctet, address, octet-append, octet_all}

-- The number that a group of digits writes.
abbrev pub value : String → ℕ
value s = value_from 0 (codes s)

-- The address as a 32-bit number.
abbrev pub number : (a b c d : ℕ) → ℕ
number a b c d = a * 2 ^ 24 + b * 2 ^ 16 + c * 2 ^ 8 + d

-- `base/bits`: the numbers that agree with the base on the leading bits.
abbrev pub in_block : (base bits : ℕ) → ℕ → Bool
in_block base bits n = (n / 2 ^ (32 - bits)) == (base / 2 ^ (32 - bits))

-- 10.0.0.0/8, 127.0.0.0/8, 172.16.0.0/12, 192.168.0.0/16, 169.254.0.0/16, 0.0.0.0/8, 100.64.0.0/10.
abbrev pub in_private_block : ℕ → Bool
in_private_block n =
    in_block (number 10 0 0 0) 8 n
    || in_block (number 127 0 0 0) 8 n
    || in_block (number 172 16 0 0) 12 n
    || in_block (number 192 168 0 0) 16 n
    || in_block (number 169 254 0 0) 16 n
    || in_block (number 0 0 0 0) 8 n
    || in_block (number 100 64 0 0) 10 n

top_byte :
    (a b c d x : ℕ)
    → a < 256
    → b < 256
    → c < 256
    → d < 256
    → in_block (number x 0 0 0) 8 (number a b c d) ≡ (a == x)
top_byte a b c d x ha hb hc hd = ground arith

top_bytes :
    (a b c d x y : ℕ)
    → a < 256
    → b < 256
    → c < 256
    → d < 256
    → y < 256
    → in_block (number x y 0 0) 16 (number a b c d) ≡ (a == x && b == y)
top_bytes a b c d x y ha hb hc hd hy = ground arith

block_172 :
    (a b c d : ℕ)
    → a < 256
    → b < 256
    → c < 256
    → d < 256
    → in_block (number 172 16 0 0) 12 (number a b c d) ≡ (a == 172 && leb 16 b && leb b 31)
block_172 a b c d ha hb hc hd = ground arith

block_100 :
    (a b c d : ℕ)
    → a < 256
    → b < 256
    → c < 256
    → d < 256
    → in_block (number 100 64 0 0) 10 (number a b c d) ≡ (a == 100 && leb 64 b && leb b 127)
block_100 a b c d ha hb hc hd = ground arith

in_private_block_lem :
    (a b c d : ℕ)
    → a < 256
    → b < 256
    → c < 256
    → d < 256
    → in_private_block (number a b c d) ≡ is_private_v4 a b
in_private_block_lem a b c d ha hb hc hd =
    rw
      (
        top_byte a b c d 10 ha hb hc hd,
        top_byte a b c d 127 ha hb hc hd,
        block_172 a b c d ha hb hc hd,
        top_bytes a b c d 192 168 ha hb hc hd (omega arith),
        top_bytes a b c d 169 254 ha hb hc hd (omega arith),
        top_byte a b c d 0 ha hb hc hd,
        block_100 a b c d ha hb hc hd,
      )
      refl

dotted_all :
    (a b c d : String)
    → IsOctet a
    → IsOctet b
    → IsOctet c
    → IsOctet d
    → dotted (address a b c d) ≡ some (value a, value b, "")
unfolding dotted skip
dotted_all a b c d ha hb hc hd =
    rw
      (
        octet-append a "." _ ha refl,
        octet-append b "." _ hb refl,
        octet-append c "." _ hc refl,
        octet_all d hd,
      )
      refl

private_v4 :
    (a b c d : String)
    → IsOctet a
    → IsOctet b
    → IsOctet c
    → IsOctet d
    → is_private_or_reserved_ip (address a b c d) ≡ is_private_v4 (value a) (value b)
unfolding is_private_or_reserved_ip
private_v4 a b c d ha hb hc hd = rw (dotted_all a b c d ha hb hc hd, is_private_or_reserved_ip) refl

-- A dotted IPv4 address of four groups below 256 is held private or reserved exactly when its 32-bit
-- number lies in 10/8, 127/8, 172.16/12, 192.168/16, 169.254/16, 0/8 or 100.64/10.
pub is_private_or_reserved_ip_blocks :
    (a b c d : String)
    → IsOctet a
    → IsOctet b
    → IsOctet c
    → IsOctet d
    → value a < 256
    → value b < 256
    → value c < 256
    → value d < 256
    → is_private_or_reserved_ip (address a b c d)
      ≡ in_private_block (number (value a) (value b) (value c) (value d))
is_private_or_reserved_ip_blocks a b c d ha hb hc hd la lb lc ld =
    private_v4 a b c d ha hb hc hd
    ∙ sym (in_private_block_lem (value a) (value b) (value c) (value d) la lb lc ld)
