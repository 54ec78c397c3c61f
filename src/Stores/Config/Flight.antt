-- ===== src/Stores/Config/Flight.antt =====
-- Requests of the config store in flight: calls and replies interleave, and each kind of request is
-- made by one caller at a time.
use emailjachai.Common.{
  ℕ, ◌+◌, ◌-◌, ◌<◌, ◌≤◌, ◌≡◌, refl, Bool, true, false, none, some, List, arith, if◌then◌else◌,
}
use emailjachai.Stores.Config.{
  Package, PublicSettings, ConfigState, init, begin_fetch_packages, finish_fetch_packages,
  begin_fetch_settings, finish_fetch_settings, set_packages, set_settings, reset, fetch_cooldown_ms,
}
use emailjachai.Stores.Reply.{Reply, replied, rejected}

-- The store with the number of its requests that have no reply yet, and of the resets so far.
pub record Flight : Type 0 where
  pub store : ConfigState
  pub packages_out : ℕ
  pub settings_out : ℕ
  pub resets : ℕ

-- A call that goes on to its request, a reply to a request in flight, a direct write, or a reset of all
-- stores, which no request in flight notices.
pub data Step (f : Flight) : Flight → Type 0 where
  call_packages :
      (force : Bool) (now : ℕ) (s : ConfigState)
      → begin_fetch_packages force now f.store ≡ some s
      → Step f (record f { store = s; packages_out = f.packages_out + 1 })
  packages_arrive :
      (r : Reply (List Package)) (now : ℕ)
      → 0 < f.packages_out
      → Step f (record f {
        store = finish_fetch_packages r now f.store;
        packages_out = f.packages_out - 1;
      })
  call_settings :
      (force : Bool) (now : ℕ) (s : ConfigState)
      → begin_fetch_settings force now f.store ≡ some s
      → Step f (record f { store = s; settings_out = f.settings_out + 1 })
  settings_arrive :
      (r : Reply PublicSettings) (now : ℕ)
      → 0 < f.settings_out
      → Step f (record f {
        store = finish_fetch_settings r now f.store;
        settings_out = f.settings_out - 1;
      })
  write_packages :
      (ps : List Package) (now : ℕ) → Step f (record f { store = set_packages ps now f.store })
  write_settings :
      (d : PublicSettings) (now : ℕ) → Step f (record f { store = set_settings d now f.store })
  resets_all : Step f (record f { store = reset f.store; resets = f.resets + 1 })

pub data Reach (f : Flight) : Flight → Type 0 where
  here : Reach f f
  next : {g h : Flight} → Reach f g → Step g h → Reach f h

-- Beyond the request that a loading mark stands for there is at most one for each reset.
abbrev Counted : Bool → ℕ → ℕ → Type 0
Counted loading out resets = out ≤ (if loading then 1 else 0) + resets

record IsCounted (f : Flight) : Type 0 where
  packages : Counted f.store.is_loading_packages f.packages_out f.resets
  settings : Counted f.store.is_loading_settings f.settings_out f.resets

finish_packages-IsCounted :
    (r : Reply (List Package)) (now : ℕ) (f : Flight)
    → 0 < f.packages_out
    → IsCounted f
    → IsCounted (record f {
      store = finish_fetch_packages r now f.store;
      packages_out = f.packages_out - 1;
    })
unfolding finish_fetch_packages
finish_packages-IsCounted (replied true (some ps) m) now f h v = ground arith
finish_packages-IsCounted (replied true none m) now f h v = ground arith
finish_packages-IsCounted (replied false body m) now f h v = ground arith
finish_packages-IsCounted rejected now f h v = ground arith

finish_settings-IsCounted :
    (r : Reply PublicSettings) (now : ℕ) (f : Flight)
    → 0 < f.settings_out
    → IsCounted f
    → IsCounted (record f {
      store = finish_fetch_settings r now f.store;
      settings_out = f.settings_out - 1;
    })
unfolding finish_fetch_settings
finish_settings-IsCounted (replied true (some ps) m) now f h v = ground arith
finish_settings-IsCounted (replied true none m) now f h v = ground arith
finish_settings-IsCounted (replied false body m) now f h v = ground arith
finish_settings-IsCounted rejected now f h v = ground arith

Step-IsCounted : {f g : Flight} → Step f g → IsCounted f → IsCounted g
unfolding begin_fetch_packages begin_fetch_settings set_packages set_settings reset
Step-IsCounted {f} (call_packages force now s e) v = record {
  packages = ground (arith, v.packages);
  settings = ground (arith, v.settings);
}
Step-IsCounted {f} (packages_arrive r now h) v = finish_packages-IsCounted r now f h v
Step-IsCounted {f} (call_settings force now s e) v = record {
  packages = ground (arith, v.packages);
  settings = ground (arith, v.settings);
}
Step-IsCounted {f} (settings_arrive r now h) v = finish_settings-IsCounted r now f h v
Step-IsCounted (write_packages ps now) v = ground arith
Step-IsCounted (write_settings d now) v = ground arith
Step-IsCounted {f} resets_all v = record {
  packages = ground (arith, v.packages);
  settings = ground (arith, v.settings);
}

Reach-IsCounted : {f g : Flight} → Reach f g → IsCounted f → IsCounted g
Reach-IsCounted here v = v
Reach-IsCounted (next r st) v = Step-IsCounted st (Reach-IsCounted r v)

abbrev pub idle : Flight
idle = record { store = init; packages_out = 0; settings_out = 0; resets = 0 }

-- However calls (forced ones too), replies, writes and resets of all stores interleave, at most one
-- request for packages and one for settings are in flight, and one more of each for every reset so far.
pub single_flight :
    (f : Flight) → Reach idle f → (f.packages_out ≤ 1 + f.resets) × (f.settings_out ≤ 1 + f.resets)
unfolding init
single_flight f r =
    let v = Reach-IsCounted r (record { packages = omega arith; settings = omega arith }) in
    ground (arith, v.packages, v.settings)

finish_packages_at :
    (r : Reply (List Package)) (t : ℕ) (s : ConfigState)
    → ((finish_fetch_packages r t s).packages_fetched_at ≡ t)
      × ((finish_fetch_packages r t s).is_loading_packages ≡ false)
unfolding finish_fetch_packages
finish_packages_at (replied true (some ps) m) t s = (refl, refl)
finish_packages_at (replied true none m) t s = (refl, refl)
finish_packages_at (replied false body m) t s = (refl, refl)
finish_packages_at rejected t s = (refl, refl)

finish_settings_at :
    (r : Reply PublicSettings) (t : ℕ) (s : ConfigState)
    → ((finish_fetch_settings r t s).settings_fetched_at ≡ t)
      × ((finish_fetch_settings r t s).is_loading_settings ≡ false)
unfolding finish_fetch_settings
finish_settings_at (replied true (some ps) m) t s = (refl, refl)
finish_settings_at (replied true none m) t s = (refl, refl)
finish_settings_at (replied false body m) t s = (refl, refl)
finish_settings_at rejected t s = (refl, refl)

-- After a reply of any kind at a time other than 0, an unforced call of the same fetch within the
-- cooldown makes no request.
pub cooldown_after_reply :
    (rp : Reply (List Package)) (rs : Reply PublicSettings) (t now : ℕ) (s : ConfigState)
    → 0 < t
    → now < t + fetch_cooldown_ms
    → (begin_fetch_packages false now (finish_fetch_packages rp t s) ≡ none)
      × (begin_fetch_settings false now (finish_fetch_settings rs t s) ≡ none)
unfolding begin_fetch_packages begin_fetch_settings
cooldown_after_reply rp rs t now s h k = (packages rp, settings rs)
  where
    packages :
        (r : Reply (List Package))
        → begin_fetch_packages false now (finish_fetch_packages r t s) ≡ none
    packages r = ground (arith, finish_packages_at r t s)

    settings :
        (r : Reply PublicSettings)
        → begin_fetch_settings false now (finish_fetch_settings r t s) ≡ none
    settings r = ground (arith, finish_settings_at r t s)
