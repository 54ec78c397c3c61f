-- ===== src/Seo/Robots.antt =====
-- What robots.txt holds.
use Prim.Native.Char.{code}
use Prim.Native.String.{[], ◌∷◌}
use text.Mathlib.TextLemmas.{nil-append, cons-append}
use emailjachai.Common.{
  ℕ, String, ◌≡◌, refl, Bool, true, false, not, ◌&&◌, Option, List, [], ◌∷◌, str_eq, ◌++◌, arith,
  Bool-cases, inl, inr,
}
use emailjachai.Common.Text.{◌&◌, trim, codes, nullish}
use emailjachai.Seo.{
  has_field, is_line_end, has_sitemap, is_field, is_colon_next, join_lines,
  ensure_robots_has_sitemap, build_default_robots_txt, default_lines, RobotsSettings, SiteEnv,
  robots_txt, resolve_site_base_url, is_one, trimmed,
}

is_colon_next-append : (s t : String) → is_colon_next s ≡ true → is_colon_next (s & t) ≡ true
unfolding is_colon_next
is_colon_next-append String.[] t h = absurd (cc h)
is_colon_next-append (String.◌∷◌ c s) t h =
    rw (cons-append c s t) (ground (arith, is_colon_next-append s t))

is_field-append :
    (name : List ℕ) (s t : String) → is_field name s ≡ true → is_field name (s & t) ≡ true
unfolding is_field
is_field-append [] s t h = is_colon_next-append s t h
is_field-append (n ∷ ns) String.[] t h = absurd (cc h)
is_field-append (n ∷ ns) (String.◌∷◌ c s) t h =
    rw (cons-append c s t) (ground (arith, is_field-append ns s t))

-- A line of a text is a line of any longer text.
has_field-append :
    (b : Bool) (name : List ℕ) (s t : String)
    → has_field b name s ≡ true
    → has_field b name (s & t) ≡ true
unfolding has_field
has_field-append b name String.[] t h = absurd (cc h)
has_field-append b name (String.◌∷◌ c s) t h =
    let first = is_field-append name (String.◌∷◌ c s) t in
    rw (cons-append c s t) (
      ground
        (arith, has_field-append (is_line_end (code c)) name s t, rw (cons-append c s t) at first))

has_field-start :
    (b : Bool) (name : List ℕ) (s : String)
    → has_field false name s ≡ true
    → has_field b name s ≡ true
unfolding has_field
has_field-start b name String.[] h = absurd (cc h)
has_field-start b name (String.◌∷◌ c s) h = ground arith

-- What comes before a line does not matter.
has_field-before :
    (b : Bool) (name : List ℕ) (s t : String)
    → has_field false name t ≡ true
    → has_field b name (s & t) ≡ true
unfolding has_field
has_field-before b name String.[] t h = rw (nil-append t) (has_field-start b name t h)
has_field-before b name (String.◌∷◌ c s) t h =
    rw (cons-append c s t) (ground (arith, has_field-before (is_line_end (code c)) name s t h))

has_field-newline :
    (name : List ℕ) (t : String)
    → has_field true name t ≡ true
    → has_field false name ("\n" & t) ≡ true
unfolding has_field
has_field-newline name t h = rw (cons-append "\n" "" t, nil-append t) h

join_lines-cons :
    (a : String) (ls : List String) (l : String) (rest : List String)
    → join_lines (a ∷ (ls ++ l ∷ rest)) ≡ a & "\n" & join_lines (ls ++ l ∷ rest)
unfolding join_lines
join_lines-cons a [] l rest = refl
join_lines-cons a (m ∷ ls) l rest = refl

has_field-join_lines :
    (name : List ℕ) (ls : List String) (l : String) (rest : List String)
    → has_field true name l ≡ true
    → has_field true name (join_lines (ls ++ l ∷ rest)) ≡ true
unfolding join_lines
has_field-join_lines name [] l [] h = h
has_field-join_lines name [] l (m ∷ rest) h = has_field-append true name l _ h
has_field-join_lines name (a ∷ ls) l rest h = rw (join_lines-cons a ls l rest) (
    has_field-before true name a _
      (has_field-newline name _ (has_field-join_lines name ls l rest h)))

-- A custom file names a site map where the address of the site is known.
ensure_robots_has_sitemap_lem :
    (body base : String)
    → str_eq base "" ≡ false
    → has_sitemap (ensure_robots_has_sitemap body base) ≡ true
unfolding has_sitemap ensure_robots_has_sitemap has_field is_field is_colon_next
ensure_robots_has_sitemap_lem body base h =
    elim (Bool-cases (has_field true (codes "sitemap") (trim body))) [
      | inl e ↦ rw (h, e) e
      | inr e ↦
          rw (h, e)
            (has_field-before true (codes "sitemap") (trim body) _ (
              has_field-append false (codes "sitemap") "\n\nSitemap: " (base & "/sitemap.xml\n")
                refl))
    ]

build_default_robots_txt_lem :
    (base : String) → str_eq base "" ≡ false → has_sitemap (build_default_robots_txt base) ≡ true
unfolding has_sitemap build_default_robots_txt has_field is_field is_colon_next
build_default_robots_txt_lem base h = rw h (
    has_field-join_lines (codes "sitemap") default_lines ("Sitemap: " & base & "/sitemap.xml")
      ("" ∷ []) (has_field-append true (codes "sitemap") "Sitemap: " (base & "/sitemap.xml") refl))

-- Where the address of the site is known, from its settings, from the request or from the environment,
-- robots.txt names a site map, be it the default file or a custom one.
pub robots_txt_lem :
    (e : SiteEnv) (request : Option (String → Option String)) (s : RobotsSettings)
    → str_eq (resolve_site_base_url e s.site_base_url request) "" ≡ false
    → has_sitemap (robots_txt e request s) ≡ true
unfolding robots_txt
robots_txt_lem e request s h =
    let base = resolve_site_base_url e s.site_base_url request in
    elim (Bool-cases
      (is_one s.use_custom_robots && not (str_eq (trimmed s.custom_robots_txt) ""))) [
        | inl k ↦ rw k (ensure_robots_has_sitemap_lem (nullish s.custom_robots_txt "") base h)
        | inr k ↦ rw k (build_default_robots_txt_lem base h)
      ]
