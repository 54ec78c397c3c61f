-- ===== src/Stores/Config/Tests.antt =====
-- A fetch of the packages, and the cooldown after its reply.
use emailjachai.Common.{◌+◌, ◌≤◌, refl, true, false}
use emailjachai.Stores.Config.{ConfigState, init, reset, begin_fetch_packages}
use emailjachai.Stores.Config.Flight.{
  Flight, Reach, here, next, call_packages, resets_all, idle, single_flight,
}

abbrev loading : ConfigState
loading = record init { is_loading_packages = true }

abbrev fetching : Flight
fetching = record idle { store = loading; packages_out = 1 }

fetching-Reach : Reach idle fetching
unfolding init begin_fetch_packages
fetching-Reach = next here (call_packages false 100000 loading refl)

-- A reset, and a second request beside the first.
abbrev refetching : Flight
refetching = record fetching { packages_out = 2; resets = 1 }

refetching-Reach : Reach idle refetching
unfolding init begin_fetch_packages reset
refetching-Reach = next (next fetching-Reach resets_all) (call_packages false 100000 loading refl)

single_flight_example : (refetching.packages_out ≤ 1 + 1) × (refetching.settings_out ≤ 1 + 1)
single_flight_example = single_flight refetching refetching-Reach
