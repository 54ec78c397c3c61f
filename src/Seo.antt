-- ===== src/Seo.antt =====
-- frontend/lib/seo.ts, frontend/lib/site-url.ts and frontend/app/robots.txt/route.ts: the address of the
-- site and what crawlers are told of it.
pub mod Robots
mod Tests
use Prim.Native.Char.{code}
use Prim.Native.String.{[], ◌∷◌}
use Prim.Native.String
use emailjachai.Common.{
  ℕ, String, Bool, true, false, not, ◌||◌, ◌&&◌, Option, none, some, List, [], ◌∷◌, if◌then◌else◌,
  str_eq, ◌==◌, ◌++◌,
}
use emailjachai.Common.Text.{
  ◌&◌, text_or, nullish, codes, to_lower, includes, starts_with, lower, is_space, trim,
}

-- `replace(/c$/, "")`: the last character is dropped where it is c.
unfoldable pub drop_last : ℕ → String → String
drop_last c String.[] = ""
drop_last c (String.◌∷◌ d s) =
    let rest = drop_last c s in if code d == c && str_eq s "" then "" else String.◌∷◌ d rest

-- `option?.trim()`, where a text that is not there and an empty one are alike.
abbrev pub trimmed : Option String → String
trimmed none = ""
trimmed (some s) = trim s

-- The variables of the environment that name the site.
pub record SiteEnv : Type 0 where
  pub frontend_url : Option String
  pub next_public_site_url : Option String

unfoldable pub env_site_base_url : SiteEnv → String
unfolding drop_last trim
env_site_base_url e = drop_last b'/' (
    if str_eq (trimmed e.frontend_url) ""
    then trimmed e.next_public_site_url
    else trimmed e.frontend_url)

unfoldable pub looks_like_poisoned_host : String → Bool
looks_like_poisoned_host host =
    includes (to_lower host) (codes "@")
    || includes (to_lower host) (codes " ")
    || starts_with (to_lower host) (codes ".")

pub record SiteOptions : Type 0 where
  pub site_base_url : Option String
  pub host : Option String
  pub proto : Option String
  pub env_base_url : Option String

abbrev pub or_https : String → String
or_https s = if str_eq s "" then "https" else s

unfoldable pub pick_site_base_url : SiteEnv → SiteOptions → String
unfolding drop_last trim looks_like_poisoned_host env_site_base_url
pick_site_base_url e o =
    if not (str_eq (trimmed o.site_base_url) "")
    then drop_last b'/' (trimmed o.site_base_url)
    else if not (str_eq (trimmed o.host) "") && not (looks_like_poisoned_host (trimmed o.host))
    then drop_last b':' (or_https (trimmed o.proto)) & "://" & trimmed o.host
    else drop_last b'/' (trim (nullish o.env_base_url (env_site_base_url e)))

-- The headers of the request that the page answers; none where there is no request.
abbrev pub or_else : Option String → Option String → Option String
or_else none b = b
or_else (some s) b = if str_eq s "" then b else some s

unfoldable pub resolve_site_base_url :
    SiteEnv → Option String → Option (String → Option String) → String
unfolding pick_site_base_url
resolve_site_base_url e configured none = pick_site_base_url e (record {
  site_base_url = configured;
  host = none;
  proto = none;
  env_base_url = or_else e.frontend_url e.next_public_site_url;
})
resolve_site_base_url e configured (some get) = pick_site_base_url e (record {
  site_base_url = configured;
  host = or_else (get "x-forwarded-host") (get "host");
  proto = or_else (get "x-forwarded-proto") (some "https");
  env_base_url = or_else e.frontend_url e.next_public_site_url;
})

-- `lines.join("\n")`.
unfoldable pub join_lines : List String → String
join_lines [] = ""
join_lines (l ∷ []) = l
join_lines (l ∷ m ∷ rest) = l & "\n" & join_lines (m ∷ rest)

abbrev pub default_lines : List String
default_lines =
    "User-agent: *" ∷ "Allow: /" ∷ "Disallow: /admin/" ∷ "Disallow: /dashboard/"
    ∷ "Disallow: /next-api/" ∷ "" ∷ "User-agent: GPTBot" ∷ "User-agent: ChatGPT-User"
    ∷ "User-agent: ClaudeBot" ∷ "User-agent: PerplexityBot" ∷ "User-agent: Google-Extended"
    ∷ "Allow: /" ∷ "Disallow: /admin/" ∷ "Disallow: /dashboard/" ∷ "Disallow: /next-api/" ∷ "" ∷ []

-- The default file, with the site map where the address of the site is known.
unfoldable pub build_default_robots_txt : String → String
unfolding join_lines
build_default_robots_txt base =
    if str_eq base ""
    then join_lines default_lines
    else join_lines (default_lines ++ (("Sitemap: " & base & "/sitemap.xml") ∷ "" ∷ []))

-- `/^sitemap\s*:/im`: the rest of a line that begins with the name, and where a line begins.
unfoldable pub is_colon_next : String → Bool
unfolding is_space
is_colon_next String.[] = false
is_colon_next (String.◌∷◌ c s) = code c == b':' || (is_space (code c) && is_colon_next s)

unfoldable pub is_field : List ℕ → String → Bool
unfolding is_colon_next
is_field [] s = is_colon_next s
is_field (n ∷ ns) String.[] = false
is_field (n ∷ ns) (String.◌∷◌ c s) = lower (code c) == n && is_field ns s

abbrev pub is_line_end : ℕ → Bool
is_line_end c = c == 10 || c == 13 || c == 0x2028 || c == 0x2029

unfoldable pub has_field : Bool → List ℕ → String → Bool
unfolding is_field
has_field at_start name String.[] = false
has_field at_start name (String.◌∷◌ c s) =
    (at_start && is_field name (String.◌∷◌ c s)) || has_field (is_line_end (code c)) name s

unfoldable pub has_sitemap : String → Bool
unfolding has_field
has_sitemap s = has_field true (codes "sitemap") s

unfoldable pub ensure_robots_has_sitemap : String → String → String
unfolding has_sitemap trim
ensure_robots_has_sitemap body base =
    if str_eq base "" || has_sitemap (trim body)
    then trim body
    else trim body & "\n\nSitemap: " & base & "/sitemap.xml\n"

pub record RobotsSettings : Type 0 where
  pub site_base_url : Option String
  pub use_custom_robots : Option String
  pub custom_robots_txt : Option String

abbrev pub is_one : Option String → Bool
is_one none = false
is_one (some s) = str_eq s "1"

-- The body of robots.txt.
unfoldable pub robots_txt : SiteEnv → Option (String → Option String) → RobotsSettings → String
unfolding resolve_site_base_url ensure_robots_has_sitemap build_default_robots_txt
robots_txt e request s =
    let base = resolve_site_base_url e s.site_base_url request in
    if is_one s.use_custom_robots && not (str_eq (trimmed s.custom_robots_txt) "")
    then ensure_robots_has_sitemap (nullish s.custom_robots_txt "") base
    else build_default_robots_txt base

-- The pages that the site map lists.
unfoldable pub public_sitemap_entries : String → List String
public_sitemap_entries base =
    if str_eq base ""
    then []
    else base
      ∷ (base & "/privacy")
      ∷ (base & "/terms")
      ∷ (base & "/changelog")
      ∷ (base & "/offer")
      ∷ (base & "/self-host")
      ∷ []
