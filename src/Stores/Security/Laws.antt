-- ===== src/Stores/Security/Laws.antt =====
-- The live feeds of the security dashboard: bounded, each entry once, counted once.
use emailjachai.Common.{
  ℕ, ◌≤◌, String, ◌≡◌, refl, Bool, true, false, List, [], ◌∷◌, arith, length, length-take,
  length-filter-le, not, any, Bool-cases, inl, inr,
}
use emailjachai.Common.Keyed.{IsDistinct, Fresh-of_any, IsDistinct-take, IsDistinct-filter}
use emailjachai.Stores.Security.{
  SecurityLog, BlockedEntry, SecurityState, same_entry, same_entry_iff, entry_key, log_key,
  block_key, has_block_id, add_log, add_blocked, set_daily_limit, set_verification_enabled,
  unblock_client,
}
use emailjachai.Stores.Reply.{Reply, replied, rejected}

pub record IsValid (s : SecurityState) : Type 0 where
  pub few_logs : length s.logs ≤ 50
  pub few_blocked : length s.blocked ≤ 50
  pub distinct_logs : IsDistinct log_key s.logs
  pub distinct_blocked : IsDistinct block_key s.blocked
  pub counted : s.stats.fraud_prevented ≤ s.stats.total_verified

-- What the sockets and the panel's buttons do between two loads of the dashboard.
pub data Event : Type 0 where
  log_arrives : SecurityLog → Event
  block_arrives : BlockedEntry → Event
  unblock : ℕ → Reply (Unit {0}) → Event
  limit : String → Event
  toggle : Bool → Event

unfoldable pub handle : Event → SecurityState → SecurityState
unfolding add_log add_blocked unblock_client set_daily_limit set_verification_enabled
handle (log_arrives log) s = add_log log s
handle (block_arrives block) s = add_blocked block s
handle (unblock n reply) s = (unblock_client n reply s).0
handle (limit l) s = set_daily_limit l s
handle (toggle b) s = set_verification_enabled b s

unfoldable pub handle_all : List Event → SecurityState → SecurityState
handle_all [] s = s
handle_all (e ∷ rest) s = handle_all rest (handle e s)

pub add_log-IsValid : (log : SecurityLog) (s : SecurityState) → IsValid s → IsValid (add_log log s)
unfolding add_log
add_log-IsValid log s v =
    elim (Bool-cases (any (λ x. same_entry (log_key x) (log_key log)) s.logs)) [
      | inl old ↦ rw (old, add_log) v
      | inr new ↦
          rw (new, add_log)
            (record {
              few_logs = omega (arith, length-take {0} 50 (log ∷ s.logs));
              few_blocked = v.few_blocked;
              distinct_logs =
                  IsDistinct-take log_key 50 (log ∷ s.logs)
                    (Fresh-of_any log_key (log_key log) s.logs new, v.distinct_logs);
              distinct_blocked = v.distinct_blocked;
              counted = ground (arith, v.counted);
            })
    ]

pub add_blocked-IsValid :
    (block : BlockedEntry) (s : SecurityState) → IsValid s → IsValid (add_blocked block s)
unfolding add_blocked
add_blocked-IsValid block s v =
    elim (Bool-cases (any (λ x. same_entry (block_key x) (block_key block)) s.blocked)) [
      | inl old ↦ rw (old, add_blocked) v
      | inr new ↦
          rw (new, add_blocked)
            (record {
              few_logs = v.few_logs;
              few_blocked = omega (arith, length-take {0} 50 (block ∷ s.blocked));
              distinct_logs = v.distinct_logs;
              distinct_blocked =
                  IsDistinct-take block_key 50 (block ∷ s.blocked)
                    (Fresh-of_any block_key (block_key block) s.blocked new, v.distinct_blocked);
              counted = v.counted;
            })
    ]

unblock_client-IsValid :
    (n : ℕ) (r : Reply (Unit {0})) (s : SecurityState)
    → IsValid s
    → IsValid (unblock_client n r s).0
unfolding unblock_client
unblock_client-IsValid n (replied true b m) s v = record {
  few_logs = v.few_logs;
  few_blocked =
      omega (arith, length-filter-le (λ b. not (has_block_id n b)) s.blocked, v.few_blocked);
  distinct_logs = v.distinct_logs;
  distinct_blocked = IsDistinct-filter block_key _ s.blocked v.distinct_blocked;
  counted = v.counted;
}
unblock_client-IsValid n (replied false b m) s v = v
unblock_client-IsValid n rejected s v = v

handle-IsValid : (e : Event) (s : SecurityState) → IsValid s → IsValid (handle e s)
unfolding handle
handle-IsValid (log_arrives log) s v = add_log-IsValid log s v
handle-IsValid (block_arrives block) s v = add_blocked-IsValid block s v
handle-IsValid (unblock n reply) s v = unblock_client-IsValid n reply s v
handle-IsValid (limit l) s v = record {
  few_logs = v.few_logs;
  few_blocked = v.few_blocked;
  distinct_logs = v.distinct_logs;
  distinct_blocked = v.distinct_blocked;
  counted = v.counted;
}
handle-IsValid (toggle b) s v = record {
  few_logs = v.few_logs;
  few_blocked = v.few_blocked;
  distinct_logs = v.distinct_logs;
  distinct_blocked = v.distinct_blocked;
  counted = v.counted;
}

-- Whatever arrives over the socket and is done in the panel, in any order, both feeds keep at most
-- fifty entries, no two entries of a feed have the same key, and no more frauds than verifications
-- are counted, if that held at first.
pub handle_all-IsValid :
    (es : List Event) (s : SecurityState) → IsValid s → IsValid (handle_all es s)
unfolding handle_all
handle_all-IsValid [] s v = v
handle_all-IsValid (e ∷ es) s v = handle_all-IsValid es (handle e s) (handle-IsValid e s v)

-- A log that arrives twice in a row is stored and counted once.
pub add_log_idem :
    (log : SecurityLog) (s : SecurityState) → add_log log (add_log log s) ≡ add_log log s
unfolding add_log
add_log_idem log s = elim (Bool-cases (any (λ x. same_entry (log_key x) (log_key log)) s.logs)) [
  | inl old ↦ rw (old, add_log) (rw (old, add_log) refl)
  | inr new ↦
      rw (new, add_log) (rw (((same_entry_iff (log_key log) (log_key log)).1 refl), add_log) refl)
]
