-- ===== src/Stores/Security.antt =====
-- frontend/stores/security-store.ts: the dashboard of the public verifier, with the two controls of
-- frontend/app/admin/public-verifier/_components/security-dashboard-client.tsx that change it.
pub mod Laws
pub mod Settings
mod Tests
use emailjachai.Common.{
  ℕ, ◌+◌, ◌-◌, String, ◌≡◌, ◌↔◌, Bool, true, false, not, ◌&&◌, ◌||◌, Option, none, some, List, [],
  ◌∷◌, arith, str_eq, eq_iff, ◌==◌, if◌then◌else◌, take, any, filter,
}
use emailjachai.Common.Text.{◌&◌, text_or, nullish, over}
use emailjachai.Common.Keyed.{Key, num_iff}
use emailjachai.Stores.Reply.{Reply, replied, rejected}

pub record SecurityLog : Type 0 where
  pub id : Option ℕ
  pub created_at : Option String
  pub ip : Option String
  pub cookie_id : Option String
  pub browser : Option String
  pub email : Option String
  pub status : Option String

pub record BlockedEntry : Type 0 where
  pub id : Option ℕ
  pub blocked_at : Option String
  pub type : Option String
  pub value : Option String
  pub reason : Option String

pub record SecurityStats : Type 0 where
  pub total_verified : ℕ
  pub unique_ips : ℕ
  pub fraud_prevented : ℕ
  pub currently_blocked : ℕ
  pub daily_limit : Option String
  pub verifier_enabled : Option Bool

pub record SecurityHydrateData : Type 0 where
  pub stats : Option SecurityStats
  pub logs : Option (List SecurityLog)
  pub blocked : Option (List BlockedEntry)

pub record SecurityState : Type 0 where
  pub logs : List SecurityLog
  pub blocked : List BlockedEntry
  pub stats : SecurityStats
  pub daily_limit : String
  pub is_verification_enabled : Bool
  pub has_initialized : Bool

abbrev pub zero_stats : SecurityStats
zero_stats = record {
  total_verified = 0;
  unique_ips = 0;
  fraud_prevented = 0;
  currently_blocked = 0;
  daily_limit = none;
  verifier_enabled = none;
}

unfoldable pub init : SecurityState
init = record {
  logs = [];
  blocked = [];
  stats = zero_stats;
  daily_limit = "10";
  is_verification_enabled = true;
  has_initialized = false;
}

-- `id ?? composite`: a number and a text are never `===`.
pub data EntryKey : Type 0 where
  num : ℕ → EntryKey
  text : String → EntryKey

abbrev pub same_entry : EntryKey → EntryKey → Bool
same_entry (num a) (num b) = a == b
same_entry (num a) (text t) = false
same_entry (text s) (num b) = false
same_entry (text s) (text t) = str_eq s t

pub same_entry_iff : (a b : EntryKey) → (same_entry a b ≡ true) ↔ (a ≡ b)
same_entry_iff (num a) (num b) = ground (arith, num_iff a b)
same_entry_iff (num a) (text t) = ground arith
same_entry_iff (text s) (num b) = ground arith
same_entry_iff (text s) (text t) = ground (arith, eq_iff s t)

instance abbrev pub entry_key : Key EntryKey
entry_key = record { same = same_entry; same_iff = same_entry_iff }

unfoldable pub log_key : SecurityLog → EntryKey
log_key log = elim log.id [
  | some n ↦ num n
  | none ↦ text (
      text_or log.created_at ""
      & ":"
      & text_or log.ip ""
      & ":"
      & text_or log.email ""
      & ":"
      & text_or log.status "")
]

unfoldable pub block_key : BlockedEntry → EntryKey
block_key b = elim b.id [
  | some n ↦ num n
  | none ↦ text (text_or b.type "" & ":" & text_or b.value "")
]

-- The dashboard's numbers, and the two settings that come with them.
unfoldable pub apply_stats : SecurityStats → SecurityState → SecurityState
apply_stats d s = record s {
  stats = d;
  daily_limit = text_or d.daily_limit "10";
  is_verification_enabled = nullish d.verifier_enabled true;
}

abbrev pub hydrate_stats : Option SecurityStats → SecurityState → SecurityState
unfolding apply_stats
hydrate_stats none s = s
hydrate_stats (some d) s = apply_stats d s

unfoldable pub hydrate : Option SecurityHydrateData → SecurityState → SecurityState
unfolding apply_stats
hydrate none s = s
hydrate (some d) s =
    let t = hydrate_stats d.stats s in
    record t {
      logs = nullish d.logs s.logs;
      blocked = nullish d.blocked s.blocked;
      has_initialized = true;
    }

abbrev pub is_fraud : Option String → Bool
is_fraud none = false
is_fraud (some st) = str_eq st "blocked" || str_eq st "quota"

unfoldable pub add_log : SecurityLog → SecurityState → SecurityState
add_log log s =
    if any (λ item. same_entry (log_key item) (log_key log)) s.logs then s else record s {
      logs = take 50 (log ∷ s.logs);
      stats = record (s.stats) {
        fraud_prevented =
            if is_fraud log.status then s.stats.fraud_prevented + 1 else s.stats.fraud_prevented;
        total_verified = s.stats.total_verified + 1;
      };
    }

unfoldable pub add_blocked : BlockedEntry → SecurityState → SecurityState
add_blocked block s =
    if any (λ item. same_entry (block_key item) (block_key block)) s.blocked then s else record s {
      blocked = take 50 (block ∷ s.blocked);
      stats = record (s.stats) { currently_blocked = s.stats.currently_blocked + 1 };
    }

-- `b.id !== id`: an entry with no id stays.
abbrev pub has_block_id : ℕ → BlockedEntry → Bool
has_block_id n b = elim b.id [ none ↦ false | some m ↦ m == n ]

unfoldable pub remove_blocked : ℕ → SecurityState → SecurityState
remove_blocked n s = record s { blocked = filter (λ b. not (has_block_id n b)) s.blocked }

-- A partial update of the numbers.
pub record StatsPatch : Type 0 where
  pub total_verified : Option ℕ
  pub unique_ips : Option ℕ
  pub fraud_prevented : Option ℕ
  pub currently_blocked : Option ℕ
  pub daily_limit : Option String
  pub verifier_enabled : Option Bool

unfoldable pub update_stats : StatsPatch → SecurityState → SecurityState
update_stats p s = record s {
  stats = record (s.stats) {
    total_verified = nullish p.total_verified s.stats.total_verified;
    unique_ips = nullish p.unique_ips s.stats.unique_ips;
    fraud_prevented = nullish p.fraud_prevented s.stats.fraud_prevented;
    currently_blocked = nullish p.currently_blocked s.stats.currently_blocked;
    daily_limit = over p.daily_limit s.stats.daily_limit;
    verifier_enabled = over p.verifier_enabled s.stats.verifier_enabled;
  };
}

unfoldable pub set_daily_limit : String → SecurityState → SecurityState
set_daily_limit limit s = record s { daily_limit = limit }

unfoldable pub set_verification_enabled : Bool → SecurityState → SecurityState
set_verification_enabled enabled s = record s { is_verification_enabled = enabled }

-- The three requests of `initialize` in turn; a rejection ends it, and what came before stays.
unfoldable pub load_blocked : Reply (List BlockedEntry) → SecurityState → SecurityState
load_blocked rejected s = s
load_blocked (replied success body m) s = record s {
  blocked = if success then nullish body [] else s.blocked;
  has_initialized = true;
}

unfoldable pub load_logs :
    Reply (List SecurityLog) → Reply (List BlockedEntry) → SecurityState → SecurityState
unfolding load_blocked
load_logs rejected blocks s = s
load_logs (replied success body m) blocks s =
    load_blocked blocks (record s { logs = if success then nullish body [] else s.logs })

unfoldable pub load_dashboard :
    Reply SecurityStats
    → Reply (List SecurityLog)
    → Reply (List BlockedEntry)
    → SecurityState
    → SecurityState
unfolding load_logs apply_stats
load_dashboard rejected logs blocks s = s
load_dashboard (replied success body m) logs blocks s =
    load_logs logs blocks (if success then hydrate_stats body s else s)

unfoldable pub initialize :
    Bool
    → Reply SecurityStats
    → Reply (List SecurityLog)
    → Reply (List BlockedEntry)
    → SecurityState
    → SecurityState
unfolding load_dashboard
initialize force dash logs blocks s =
    if not force && s.has_initialized then s else load_dashboard dash logs blocks s

-- A setting that is being saved: the values before the call, and the new values, if given.
pub record Saving : Type 0 where
  pub prev_limit : String
  pub prev_toggle : Bool
  pub new_limit : Option String
  pub new_toggle : Option Bool

-- `handleSettingsUpdate` up to its request, and after it; the store may change in between.
unfoldable pub begin_settings_update : Option String → Option Bool → SecurityState → Saving
begin_settings_update limit toggle s = record {
  prev_limit = s.daily_limit;
  prev_toggle = s.is_verification_enabled;
  new_limit = limit;
  new_toggle = toggle;
}

unfoldable pub roll_back : Saving → SecurityState → SecurityState
roll_back k s = record s {
  daily_limit = elim k.new_limit [ none ↦ s.daily_limit | some l ↦ k.prev_limit ];
  is_verification_enabled = elim k.new_toggle [
    | none ↦ s.is_verification_enabled
    | some b ↦ k.prev_toggle
  ];
}

unfoldable pub finish_settings_update :
    Saving → Reply (Unit {0}) → SecurityState → SecurityState × Bool
unfolding roll_back
finish_settings_update k (replied true body m) s = (s, true)
finish_settings_update k (replied false body m) s = (roll_back k s, false)
finish_settings_update k rejected s = (roll_back k s, false)

unfoldable pub unblock_client : ℕ → Reply (Unit {0}) → SecurityState → SecurityState × Bool
unfolding remove_blocked
unblock_client n (replied true body m) s =
    let t = remove_blocked n s in
    (
      record t { stats = record (t.stats) { currently_blocked = t.stats.currently_blocked - 1 } },
      true,
    )
unblock_client n (replied false body m) s = (s, false)
unblock_client n rejected s = (s, false)

-- The switch: `onCheckedChange` sets the store and then saves.
unfoldable pub toggle_verification : Bool → SecurityState → SecurityState × Saving
unfolding set_verification_enabled begin_settings_update
toggle_verification val s =
    let t = set_verification_enabled val s in (t, begin_settings_update none (some val) t)

-- The menu of limits: `onChange` does the same.
unfoldable pub choose_daily_limit : String → SecurityState → SecurityState × Saving
unfolding set_daily_limit begin_settings_update
choose_daily_limit limit s =
    let t = set_daily_limit limit s in (t, begin_settings_update (some limit) none t)
