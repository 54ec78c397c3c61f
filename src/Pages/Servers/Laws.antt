-- ===== src/Pages/Servers/Laws.antt =====
-- What the page of the worker servers shows.
use mathlib.Core.Option.{some-injective}
use emailjachai.Common.{
  ℕ, ◌+◌, String, ◌≡◌, refl, subst, Bool, true, false, Option, none, some, List, [], ◌∷◌, arith,
  if◌then◌else◌, filter, length, Bool-cases, Option-cases, inl, inr,
}
use emailjachai.Common.Text.{nullish}
use emailjachai.Stores.Servers.{
  ServerNode, WorkerHeartbeatPayload, beat, stays_active, says_disabled,
}
use emailjachai.Stores.Reply.{replied, rejected}
use emailjachai.Pages.Servers.{
  DisplayStatus, active, warmup, offline, inactive, StatusCounts, is_warmup_in_progress,
  resolve_display_status, count_one, count_from, status_counts, KeyPanel, PasswordModal, init_panel,
  begin_password_action, finish_password_action, toggle_reveal, copy_to_clipboard, open_modal,
  reveal, rotate,
}

-- A server that a heartbeat names is shown by what the heartbeat says alone: as disabled where it or
-- the configuration disables the server, and otherwise as being warmed up or as active, whatever it was
-- shown as before; never as offline.
pub resolve_display_status-beat :
    (p : WorkerHeartbeatPayload) (server : ServerNode)
    → resolve_display_status (beat p server) ≡ (
        if stays_active p server
        then (if is_warmup_in_progress server then warmup else active)
        else inactive)
unfolding resolve_display_status beat
resolve_display_status-beat p server = elim (Bool-cases (nullish p.enabled server.config.enabled)) [
  | inr e ↦ rw e refl
  | inl e ↦ elim (Bool-cases (says_disabled p.status)) [
    | inl k ↦ rw (e, k) refl
    | inr k ↦ rw (e, k) refl
  ]
]

abbrev same_status : DisplayStatus → DisplayStatus → Bool
same_status active d = elim d [ active ↦ true | _ ↦ false ]
same_status warmup d = elim d [ warmup ↦ true | _ ↦ false ]
same_status offline d = elim d [ offline ↦ true | _ ↦ false ]
same_status inactive d = elim d [ inactive ↦ true | _ ↦ false ]

-- The servers of a list that are shown in a status.
abbrev pub number_shown : DisplayStatus → List ServerNode → ℕ
number_shown d xs = length (filter (λ s. same_status d (resolve_display_status s)) xs)

abbrev one_if : Bool → ℕ
one_if b = if b then 1 else 0

number_shown-cons :
    (d : DisplayStatus) (s : ServerNode) (xs : List ServerNode)
    → number_shown d (s ∷ xs)
      ≡ one_if (same_status d (resolve_display_status s)) + number_shown d xs
number_shown-cons d s xs = elim (Bool-cases (same_status d (resolve_display_status s))) [
  | inl e ↦ rw e (omega arith)
  | inr e ↦ rw e (omega arith)
]

abbrev count_of : DisplayStatus → StatusCounts → ℕ
count_of active c = c.active
count_of warmup c = c.warmup
count_of offline c = c.offline
count_of inactive c = c.inactive

count_of-count_one :
    (d r : DisplayStatus) (c : StatusCounts)
    → count_of d (count_one r c) ≡ count_of d c + one_if (same_status d r)
count_of-count_one d r c = ground arith

count_of-count_from :
    (d : DisplayStatus) (c : StatusCounts) (xs : List ServerNode)
    → count_of d (count_from c xs) ≡ count_of d c + number_shown d xs
unfolding count_from
count_of-count_from d c [] = omega arith
count_of-count_from d c (s ∷ xs) = omega (
  arith,
  count_of-count_from d (count_one (resolve_display_status s) c) xs,
  count_of-count_one d (resolve_display_status s) c,
  number_shown-cons d s xs,
)

one_status :
    (r : DisplayStatus)
    → one_if (same_status active r)
        + one_if (same_status warmup r)
        + one_if (same_status offline r)
        + one_if (same_status inactive r)
      ≡ 1
one_status r = ground arith

all_shown :
    (xs : List ServerNode)
    → number_shown active xs
        + number_shown warmup xs
        + number_shown offline xs
        + number_shown inactive xs
      ≡ length xs
all_shown [] = omega arith
all_shown (s ∷ xs) = omega (
  arith,
  all_shown xs,
  one_status (resolve_display_status s),
  number_shown-cons active s xs,
  number_shown-cons warmup s xs,
  number_shown-cons offline s xs,
  number_shown-cons inactive s xs,
)

abbrev none_counted : StatusCounts
none_counted = record { active = 0; warmup = 0; offline = 0; inactive = 0 }

-- The four counters above the table are the numbers of the servers in the list that are shown in each
-- status, and together they count every server once.
pub status_counts_lem :
    (xs : List ServerNode)
    → ((status_counts xs).active ≡ number_shown active xs)
      × ((status_counts xs).warmup ≡ number_shown warmup xs)
      × ((status_counts xs).offline ≡ number_shown offline xs)
      × ((status_counts xs).inactive ≡ number_shown inactive xs)
      × ((status_counts xs).active
            + (status_counts xs).warmup
            + (status_counts xs).offline
            + (status_counts xs).inactive
          ≡ length xs)
unfolding status_counts
status_counts_lem xs =
    let a = count_of-count_from active none_counted xs in
    let w = count_of-count_from warmup none_counted xs in
    let o = count_of-count_from offline none_counted xs in
    let i = count_of-count_from inactive none_counted xs in
    (omega arith, omega arith, omega arith, omega arith, omega (arith, all_shown xs))

-- What happens in the key's panel while the backend grants none.
infix 40 ◌⟶*◌
pub data ◌⟶*◌ : KeyPanel → KeyPanel → Type 0 where
  here : {s : KeyPanel} → s ⟶* s
  opens : (m : Option PasswordModal) {s t : KeyPanel} → s ⟶* t → s ⟶* open_modal m t
  asks :
      {a : PasswordModal} {s t u : KeyPanel}
      → s ⟶* t
      → begin_password_action t ≡ some (a, u)
      → s ⟶* u
  denied :
      (a : PasswordModal) (body : Option (Option String)) (m : String) {s t : KeyPanel}
      → s ⟶* t
      → s ⟶* finish_password_action a (replied false body m) t
  lost : (a : PasswordModal) {s t : KeyPanel} → s ⟶* t → s ⟶* finish_password_action a rejected t
  toggles : {s t : KeyPanel} → s ⟶* t → s ⟶* toggle_reveal t
  copies : (allowed : Bool) {s t : KeyPanel} → s ⟶* t → s ⟶* (copy_to_clipboard allowed t).0

abbrev Sealed : KeyPanel → Type 0
Sealed s = (s.worker_key ≡ "") × (s.show_api_key ≡ false)

denied-Sealed :
    (a : PasswordModal) (body : Option (Option String)) (m : String) (s : KeyPanel)
    → Sealed s
    → Sealed (finish_password_action a (replied false body m) s)
      × Sealed (finish_password_action a rejected s)
unfolding finish_password_action
denied-Sealed reveal body m s v = (v, v)
denied-Sealed rotate body m s v = (v, v)

asks-Sealed :
    (a : PasswordModal) (s u : KeyPanel)
    → begin_password_action s ≡ some (a, u)
    → Sealed s
    → Sealed u
unfolding begin_password_action
asks-Sealed a s u h v = elim (Option-cases s.password_modal) [
  | inl e ↦ absurd (cc (rw (e, begin_password_action) at h))
  | inr (b, e) ↦
      let k = some-injective _ _ (rw (e, begin_password_action) at h) in subst (λ x. Sealed x.1) k v
]

toggle_reveal-Sealed : (s : KeyPanel) → Sealed s → Sealed (toggle_reveal s)
unfolding toggle_reveal
toggle_reveal-Sealed s (k, h) = rw (h, k) (refl, refl)

copy_to_clipboard-Sealed :
    (b : Bool) (s : KeyPanel)
    → Sealed s
    → Sealed (copy_to_clipboard b s).0 × ((copy_to_clipboard b s).1 ≡ none)
unfolding copy_to_clipboard
copy_to_clipboard-Sealed b s (k, h) = rw (k, h) ((refl, refl), refl)

sealed_lem : {s t : KeyPanel} → Sealed s → s ⟶* t → Sealed t
unfolding open_modal
sealed_lem v here = v
sealed_lem v (opens m ws) = sealed_lem v ws
sealed_lem v (asks {a} {t = t} {u = u} ws h) = asks-Sealed a t u h (sealed_lem v ws)
sealed_lem v (denied a body m {t = t} ws) = (denied-Sealed a body m t (sealed_lem v ws)).0
sealed_lem v (lost a {t = t} ws) = (denied-Sealed a none "" t (sealed_lem v ws)).1
sealed_lem v (toggles {t = t} ws) = toggle_reveal-Sealed t (sealed_lem v ws)
sealed_lem v (copies b {t = t} ws) = (copy_to_clipboard-Sealed b t (sealed_lem v ws)).0

-- As long as the backend accepts no password, no click in the panel shows a worker key or copies one,
-- whatever passwords are tried and however often: the panel holds none.
pub sealed_without_password :
    (allowed : Bool) {s : KeyPanel}
    → init_panel ⟶* s
    → (s.worker_key ≡ "") × (s.show_api_key ≡ false) × ((copy_to_clipboard allowed s).1 ≡ none)
unfolding init_panel
sealed_without_password allowed {s} ws =
    let (k, h) = sealed_lem (refl, refl) ws in (k, h, (copy_to_clipboard-Sealed allowed s (k, h)).1)
