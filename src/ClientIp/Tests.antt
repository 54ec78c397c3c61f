-- ===== src/ClientIp/Tests.antt =====
-- Addresses behind proxies, by example.
use emailjachai.Common.{◌≡◌, refl, false, arith, find}
use emailjachai.Common.Text.{nullish, trim, trim_start, trim_end, is_space}
use emailjachai.Http.Headers.{Headers, empty, get, set, lookup, insert}
use emailjachai.ClientIp.{
  before, forwarded_ips, span_digits, value_from, octet, skip, dotted, is_port, strip_brackets,
  strip_port, normalize_ip, is_private_or_reserved_ip, is_public, choose, get_client_ip,
}
use emailjachai.ClientIp.Select.{is_filled, addresses, get_client_ip_lem}
use emailjachai.ClientIp.Port.{address}
use emailjachai.ClientIp.Blocks.{value, number, in_private_block, is_private_or_reserved_ip_blocks}

-- Behind two proxies, of which the nearer one is on a private network.
abbrev proxied : Headers
proxied = set "x-real-ip" "10.0.0.7" (set "x-forwarded-for" "192.168.1.9, 203.0.113.5:4711" empty)

abbrev inside : Headers
inside = set "x-real-ip" "10.0.0.7" empty

get_client_ip_lem_example :
    get_client_ip proxied
    ≡ nullish (find is_public (addresses proxied)) (nullish (find is_filled (addresses proxied)) "")
get_client_ip_lem_example = get_client_ip_lem proxied

inside_private : is_public (get_client_ip inside) ≡ false
unfolding get_client_ip choose get set lookup insert forwarded_ips normalize_ip trim trim_start
    trim_end is_space is_private_or_reserved_ip dotted octet skip span_digits value_from is_port
    strip_brackets strip_port before
inside_private = refl

is_private_or_reserved_ip_blocks_example :
    is_private_or_reserved_ip (address "172" "20" "0" "1")
    ≡ in_private_block (number (value "172") (value "20") (value "0") (value "1"))
unfolding value_from
is_private_or_reserved_ip_blocks_example =
    is_private_or_reserved_ip_blocks "172" "20" "0" "1"
      ((refl, (refl, (refl, tt))), omega arith, omega arith)
      ((refl, (refl, tt)), omega arith, omega arith) ((refl, tt), omega arith, omega arith)
      ((refl, tt), omega arith, omega arith) (omega arith) (omega arith) (omega arith) (omega arith)
