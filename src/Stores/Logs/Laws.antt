-- ===== src/Stores/Logs/Laws.antt =====
-- The log buffer stays bounded and free of duplicates.
use emailjachai.Common.{
  ◌+◌, ◌≤◌, String, ◌≡◌, refl, sym, subst, Bool, true, false, List, [], ◌∷◌, ◌++◌, map, arith,
  str_eq, eq_iff, length, length-append, length-take, take, take_all, any, All, All-append,
  All-mono, Bool-cases, inl, inr, ◌⊎◌,
}
use emailjachai.Common.Keyed.{text_key, Fresh, IsDistinct, Fresh-of_any, IsDistinct-take}
use emailjachai.Stores.Logs.{
  LogEntry, LogsStore, Page, Action, initial, more, live, clear, max_buffer, log_key, init,
  set_initial, unique_logs, append_logs, add_live_log, clear_logs, step, run,
}

-- The buffer is bounded, and no two logs have one key.
pub record IsValid (s : LogsStore) : Type 0 where
  pub bounded : length s.logs ≤ max_buffer
  pub distinct : IsDistinct log_key s.logs

str_eq_comm : (s t : String) → str_eq s t ≡ str_eq t s
str_eq_comm s t = ground (arith, eq_iff s t, eq_iff t s)

-- No key of the log list is among the texts.
abbrev Apart : List String → List LogEntry → Type 0
Apart seen = All (λ log. any (str_eq (log_key log)) seen ≡ false)

Apart-tail :
    (k : String) (seen : List String) (xs : List LogEntry)
    → Apart (k ∷ seen) xs
    → Fresh log_key k xs × Apart seen xs
Apart-tail k seen [] h = (tt, tt)
Apart-tail k seen (x ∷ xs) (p, h) =
    let (f, g) = Apart-tail k seen xs h in ((ground arith, f), (ground arith, g))

unique_logs-Apart : (seen : List String) (xs : List LogEntry) → Apart seen (unique_logs seen xs)
unfolding unique_logs
unique_logs-Apart seen [] = tt
unique_logs-Apart seen (x ∷ xs) = elim (Bool-cases (any (str_eq (log_key x)) seen)) [
  | inl old ↦ rw (old) (unique_logs-Apart seen xs)
  | inr new ↦
      rw (new) (new, (Apart-tail (log_key x) seen _ (unique_logs-Apart (log_key x ∷ seen) xs)).1)
]

unique_logs-IsDistinct :
    (seen : List String) (xs : List LogEntry) → IsDistinct log_key (unique_logs seen xs)
unfolding unique_logs
unique_logs-IsDistinct seen [] = tt
unique_logs-IsDistinct seen (x ∷ xs) = elim (Bool-cases (any (str_eq (log_key x)) seen)) [
  | inl old ↦ rw old (unique_logs-IsDistinct seen xs)
  | inr new ↦ rw new (
    (Apart-tail (log_key x) seen _ (unique_logs-Apart (log_key x ∷ seen) xs)).0,
    unique_logs-IsDistinct (log_key x ∷ seen) xs,
  )
]

IsDistinct-append :
    (xs ys : List LogEntry)
    → IsDistinct log_key xs
    → IsDistinct log_key ys
    → Apart (map log_key xs) ys
    → IsDistinct log_key (xs ++ ys)
IsDistinct-append [] ys h k a = k
IsDistinct-append (x ∷ xs) ys (f, h) k a =
    let (g, b) = Apart-tail (log_key x) (map log_key xs) ys a in
    (All-append _ xs ys f g, IsDistinct-append xs ys h k b)

set_initial-IsValid :
    (p : Page) (s : LogsStore) → IsDistinct log_key p.logs → IsValid (set_initial p s)
unfolding set_initial
set_initial-IsValid p s d = record {
  bounded = omega (arith, length-take {0} max_buffer p.logs);
  distinct = IsDistinct-take log_key max_buffer p.logs d;
}

append_logs-IsValid : (p : Page) (s : LogsStore) → IsValid s → IsValid (append_logs p s)
unfolding append_logs
append_logs-IsValid p s v = record {
  bounded = omega (arith, length-take {0} max_buffer (s.logs ++ unique));
  distinct = IsDistinct-take log_key max_buffer (s.logs ++ unique) (
      IsDistinct-append s.logs unique v.distinct (unique_logs-IsDistinct seen p.logs)
        (unique_logs-Apart seen p.logs));
}
  where
    seen : List String
    seen = map log_key s.logs

    unique : List LogEntry
    unique = unique_logs seen p.logs

pub add_live_log-IsValid :
    (log : LogEntry) (s : LogsStore) → IsValid s → IsValid (add_live_log log s)
unfolding add_live_log
add_live_log-IsValid log s v =
    elim (Bool-cases (any (λ x. str_eq (log_key x) (log_key log)) s.logs)) [
      | inl old ↦ rw (old, add_live_log) v
      | inr new ↦
          rw (new, add_live_log)
            (record {
              bounded = omega (arith, length-take {0} max_buffer (log ∷ s.logs));
              distinct =
                  IsDistinct-take log_key max_buffer (log ∷ s.logs)
                    (Fresh-of_any log_key (log_key log) s.logs new, v.distinct);
            })
    ]

clear_logs-IsValid : (s : LogsStore) → IsValid (clear_logs s)
unfolding clear_logs
clear_logs-IsValid s = record { bounded = omega arith; distinct = tt }

-- The pages that replace the buffer hold no key twice; the server's other input is free.
abbrev pub IsDistinctPage : Action → Type 0
IsDistinctPage (initial p) = IsDistinct log_key p.logs
IsDistinctPage (more p) = Unit
IsDistinctPage (live log) = Unit
IsDistinctPage clear = Unit

step-IsValid : (a : Action) (s : LogsStore) → IsDistinctPage a → IsValid s → IsValid (step a s)
unfolding step
step-IsValid (initial p) s d v = set_initial-IsValid p s d
step-IsValid (more p) s d v = append_logs-IsValid p s v
step-IsValid (live log) s d v = add_live_log-IsValid log s v
step-IsValid clear s d v = clear_logs-IsValid s

run_from-IsValid :
    (xs : List Action) (s : LogsStore) → All IsDistinctPage xs → IsValid s → IsValid (run xs s)
unfolding run
run_from-IsValid [] s h v = v
run_from-IsValid (a ∷ xs) s (d, h) v = run_from-IsValid xs (step a s) h (step-IsValid a s d v)

-- From the empty store, after any sequence of actions whose replacing pages hold no key twice, the
-- buffer holds at most 500 logs and no two of them have the same key.
pub run-IsValid : (xs : List Action) → All IsDistinctPage xs → IsValid (run xs init)
unfolding init
run-IsValid xs h = run_from-IsValid xs init h (record { bounded = omega arith; distinct = tt })

-- A key that is among the seen texts or belongs to a log of the list.
abbrev Known : List String → List LogEntry → LogEntry → Type 0
Known seen xs log =
    (any (str_eq (log_key log)) seen ≡ true)
    ⊎ (any (λ x. str_eq (log_key x) (log_key log)) xs ≡ true)

unique_logs_old :
    (seen : List String) (x : LogEntry) (xs : List LogEntry)
    → any (str_eq (log_key x)) seen ≡ true
    → unique_logs seen (x ∷ xs) ≡ unique_logs seen xs
unfolding unique_logs
unique_logs_old seen x xs h = rw h

unique_logs_new :
    (seen : List String) (x : LogEntry) (xs : List LogEntry)
    → any (str_eq (log_key x)) seen ≡ false
    → unique_logs seen (x ∷ xs) ≡ x ∷ unique_logs (log_key x ∷ seen) xs
unfolding unique_logs
unique_logs_new seen x xs h = rw h

Known-cons :
    (seen : List String) (x : LogEntry) (us : List LogEntry) (log : LogEntry)
    → Known (log_key x ∷ seen) us log
    → Known seen (x ∷ us) log
Known-cons seen x us log k = ground (arith, str_eq_comm (log_key log) (log_key x))

unique_logs-All-Known :
    (seen : List String) (xs : List LogEntry) → All (Known seen (unique_logs seen xs)) xs
unique_logs-All-Known seen [] = tt
unique_logs-All-Known seen (x ∷ xs) = elim (Bool-cases (any (str_eq (log_key x)) seen)) [
  | inl old ↦
      subst (λ us. All (Known seen us) (x ∷ xs)) (sym (unique_logs_old seen x xs old))
        (inl old, unique_logs-All-Known seen xs)
  | inr new ↦
      subst (λ us. All (Known seen us) (x ∷ xs)) (sym (unique_logs_new seen x xs new))
        (
          inr (ground (arith, eq_iff (log_key x) (log_key x))),
          All-mono (Known-cons seen x _) xs (unique_logs-All-Known (log_key x ∷ seen) xs),
        )
]

any-map :
    (k : String) (xs : List LogEntry)
    → any (str_eq k) (map log_key xs) ≡ any (λ x. str_eq (log_key x) k) xs
any-map k [] = refl
any-map k (x ∷ xs) = ground (arith, any-map k xs, str_eq_comm k (log_key x))

any-append_right :
    (q : LogEntry → Bool) (xs ys : List LogEntry) → any q ys ≡ true → any q (xs ++ ys) ≡ true
any-append_right q [] ys h = h
any-append_right q (x ∷ xs) ys h = ground (arith, any-append_right q xs ys)

any-append_left :
    (q : LogEntry → Bool) (xs ys : List LogEntry) → any q xs ≡ true → any q (xs ++ ys) ≡ true
any-append_left q [] ys h = cc
any-append_left q (x ∷ xs) ys h = ground (arith, any-append_left q xs ys)

length-unique_logs-le :
    (seen : List String) (xs : List LogEntry) → length (unique_logs seen xs) ≤ length xs
unfolding unique_logs
length-unique_logs-le seen [] = omega arith
length-unique_logs-le seen (x ∷ xs) =
    ground (arith, length-unique_logs-le seen xs, length-unique_logs-le (log_key x ∷ seen) xs)

-- Loading more keeps what is shown: where the buffer is within its bound, its logs stay in front, in
-- their order; and where buffer and page fit together, every log of the page has its key in the
-- buffer afterwards.
pub append_logs_keeps :
    (p : Page) (s : LogsStore)
    → length s.logs + length p.logs ≤ max_buffer
    → ((rest : List LogEntry) × ((append_logs p s).logs ≡ s.logs ++ rest))
      × All
          (λ log. any (λ x. str_eq (log_key x) (log_key log)) (append_logs p s).logs ≡ true)
          p.logs
unfolding append_logs
append_logs_keeps p s h = (
  (unique, all_kept),
  All-mono (λ log k. rw all_kept (found log k)) p.logs (unique_logs-All-Known seen p.logs),
)
  where
    seen : List String
    seen = map log_key s.logs

    unique : List LogEntry
    unique = unique_logs seen p.logs

    all_kept : take max_buffer (s.logs ++ unique) ≡ s.logs ++ unique
    all_kept =
        take_all max_buffer (s.logs ++ unique)
          (omega (arith, length-append {0} s.logs unique, length-unique_logs-le seen p.logs))

    found :
        (log : LogEntry)
        → Known seen unique log
        → any (λ x. str_eq (log_key x) (log_key log)) (s.logs ++ unique) ≡ true
    found log (inl h) = any-append_left _ s.logs unique (rw (← any-map (log_key log) s.logs) h)
    found log (inr h) = any-append_right _ s.logs unique h

-- A live log that arrives twice in a row is stored and counted once.
pub add_live_log_idem :
    (log : LogEntry) (s : LogsStore) → add_live_log log (add_live_log log s) ≡ add_live_log log s
unfolding add_live_log
add_live_log_idem log s = elim (Bool-cases (any (λ x. str_eq (log_key x) (log_key log)) s.logs)) [
  | inl old ↦ rw (old, add_live_log) (rw (old, add_live_log) refl)
  | inr new ↦ rw (new, add_live_log) (ground (arith, eq_iff (log_key log) (log_key log)))
]
