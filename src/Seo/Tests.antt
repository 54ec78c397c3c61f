-- ===== src/Seo/Tests.antt =====
-- A site with a custom file, asked under a host that is no host.
use emailjachai.Common.{◌≡◌, refl, true, false, Option, none, some, String, str_eq, if◌then◌else◌}
use emailjachai.Seo.{SiteEnv, RobotsSettings, resolve_site_base_url, has_sitemap, robots_txt}
use emailjachai.Seo.Robots.{robots_txt_lem}

abbrev env : SiteEnv
env = record { frontend_url = some "https://mail.example/"; next_public_site_url = none }

abbrev settings : RobotsSettings
settings = record {
  site_base_url = none;
  use_custom_robots = some "1";
  custom_robots_txt = some "User-agent: *\nAllow: /\n";
}

abbrev request : Option (String → Option String)
request = some (λ name. if str_eq name "host" then some "me@mail" else none)

address : resolve_site_base_url env none request ≡ "https://mail.example"
unfolding resolve_site_base_url
address = refl

address_known : str_eq (resolve_site_base_url env none request) "" ≡ false
unfolding resolve_site_base_url
address_known = refl

robots_txt_lem_example : has_sitemap (robots_txt env request settings) ≡ true
robots_txt_lem_example = robots_txt_lem env request settings address_known
