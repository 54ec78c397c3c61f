-- ===== src/Verify/Upload.antt =====
-- frontend/features/bulk-upload/components/form.tsx: a file of addresses becomes a job.
use emailjachai.Common.{
  ℕ, ◌*◌, String, Bool, true, false, not, ◌&&◌, ◌||◌, Option, none, some, List, [], ◌∷◌, str_eq,
  ltb, any, if◌then◌else◌,
}
use emailjachai.Common.Text.{◌&◌, codes, codes_eq, to_lower, show_num, text_or, nullish, over}
use emailjachai.Amount.{format_number, parse_credits}
use emailjachai.Stores.Credits.{deduct_credits}
use emailjachai.Stores.Dashboard.{DashboardStats, upsert_recent_job, is_some}
use emailjachai.Verify.{Desk, debit_stats, refetch}

pub record File : Type 0 where
  pub name : String
  pub type : String
  pub size : ℕ
  pub last_modified : ℕ

pub record UploadStats : Type 0 where
  pub email_count : ℕ
  pub duplicate_count : ℕ
  pub job_id : String
  pub file_name : String
  pub file_size : ℕ

pub record Form : Type 0 where
  pub is_drag_over : Bool
  pub is_uploading : Bool
  pub upload_stats : Option UploadStats
  pub selected_file : Option File
  pub is_submitting : Bool
  pub idempotency_key : Option String

-- `xs.endsWith(ys)`.
abbrev pub ends_with : List ℕ → List ℕ → Bool
ends_with [] ys = codes_eq [] ys
ends_with (x ∷ xs) ys = codes_eq (x ∷ xs) ys || ends_with xs ys

abbrev pub allowed_types : List String
allowed_types = "text/csv" ∷ "text/plain" ∷ "application/csv" ∷ []

unfoldable pub is_allowed_type : File → Bool
is_allowed_type file =
    any (str_eq file.type) allowed_types
    || ends_with (to_lower file.name) (codes ".csv")
    || ends_with (to_lower file.name) (codes ".txt")

abbrev pub max_size : ℕ
max_size = 200 * 1024 * 1024

-- `crypto.randomUUID()`, where the browser has it.
abbrev pub selection_key : Option String → File → String
selection_key uuid file =
    nullish uuid (file.name & ":" & show_num file.size & ":" & show_num file.last_modified)

abbrev pub upload_key : Option String → File → ℕ → String
upload_key uuid file now = nullish uuid (file.name & ":" & show_num file.size & ":" & show_num now)

-- The form, and the message of an error.
unfoldable pub handle_file_select : Option String → Option File → Form → Form × Option String
unfolding is_allowed_type
handle_file_select uuid none f = (record f { upload_stats = none; idempotency_key = none }, none)
handle_file_select uuid (some file) f =
    let cleared = record f { upload_stats = none; idempotency_key = none } in
    if not (is_allowed_type file)
    then (cleared, some "Please upload a CSV or TXT file only.")
    else if ltb max_size file.size
    then (cleared, some "File size must be less than 200MB.")
    else (
      record cleared {
        selected_file = some file;
        idempotency_key = some (selection_key uuid file);
      },
      none,
    )

unfoldable pub handle_drop : Option String → List File → Form → Form × Option String
unfolding handle_file_select
handle_drop uuid [] f = (record f { is_drag_over = false }, none)
handle_drop uuid (file ∷ rest) f =
    handle_file_select uuid (some file) (record f { is_drag_over = false })

-- The credits that the page knows of.
unfoldable pub available_credits : Desk → ℕ
unfolding parse_credits
available_credits s = elim s.dashboard.stats [
  | none ↦ s.credits.balance
  | some d ↦ nullish (parse_credits d.credits_remaining) s.credits.balance
]

-- What the handler holds while its request is under way.
pub record Pending : Type 0 where
  pub file : File
  pub key : String
  pub available : ℕ
  pub found_stats : Option DashboardStats

-- `handleUpload` up to its request: it returns at once, reports an error, or sends a file with a key.
pub data Start : Type 0 where
  ignored : Start
  refused : String → Start
  sent : Pending → Form → Start

abbrev pub key_of : Option String → Option String → File → ℕ → String
key_of held uuid file now = text_or held (upload_key uuid file now)

-- What the handler holds, and the form meanwhile, of a request for a file.
unfoldable pub pending_for : Option String → ℕ → File → Form → Desk → Pending
unfolding available_credits
pending_for uuid now file f s = record {
  file = file;
  key = key_of f.idempotency_key uuid file now;
  available = available_credits s;
  found_stats = s.dashboard.stats;
}

abbrev pub busy : String → Form → Form
busy key f = record f { is_submitting = true; is_uploading = true; idempotency_key = some key }

unfoldable pub begin_file : Bool → Option String → ℕ → Option File → Form → Desk → Start
unfolding available_credits pending_for
begin_file is_maintenance uuid now none f s = ignored
begin_file is_maintenance uuid now (some file) f s =
    if is_maintenance || f.is_submitting
    then ignored
    else if ltb (available_credits s) 1
    then refused "Insufficient credits. Please buy credits before uploading."
    else sent (pending_for uuid now file f s) (busy (key_of f.idempotency_key uuid file now) f)

unfoldable pub begin_upload : Bool → Option String → ℕ → Form → Desk → Start
unfolding begin_file
begin_upload is_maintenance uuid now f s = begin_file is_maintenance uuid now f.selected_file f s

pub record JobReply : Type 0 where
  pub total : Option ℕ
  pub queued : Option ℕ
  pub duplicates_removed : Option ℕ
  pub job_id : String
  pub is_duplicate : Bool

-- An answer with a body that is read as a success, one that is not, or an exception.
pub data Answer : Type 0 where
  granted : JobReply → Answer
  failed : (message : Option String) → Answer
  thrown : (message : String) → Answer

abbrev pub queued_of : JobReply → ℕ
queued_of d = nullish (over d.queued d.total) 0

unfoldable pub charge : Pending → ℕ → ℕ → Desk → Desk
unfolding debit_stats deduct_credits
charge p amount now s =
    let t = debit_stats p.found_stats amount now s in
    if ltb 0 amount && is_some p.found_stats
    then record t { credits = deduct_credits amount t.credits }
    else s

unfoldable pub record_job : Pending → JobReply → String → Desk → Desk
unfolding upsert_recent_job
record_job p d today s = record s {
  dashboard =
      upsert_recent_job
        (record {
          job_id = d.job_id;
          status = "preparing";
          total_emails = nullish d.total 0;
          filename = some (some p.file.name);
          processed_count = some (some 0);
          created_at = some (some today);
          type = some (some "bulk");
        })
        s.dashboard;
}

abbrev pub leave : Form → Form
leave f = record f { is_submitting = false; is_uploading = false }

-- The stores, the form, and the message of an error, at the time `now` and the date `today`. Amounts in
-- messages are written as in the locale en-US.
unfoldable pub finish_upload :
    Pending → Answer → ℕ → String → Form → Desk → Desk × Form × Option String
unfolding charge record_job refetch format_number
finish_upload p (thrown m) now today f s = (s, leave f, some m)
finish_upload p (failed m) now today f s =
    (s, leave f, some (text_or m "Failed to submit job to API"))
finish_upload p (granted d) now today f s =
    if not d.is_duplicate && ltb p.available (queued_of d)
    then (
      s,
      leave f,
      some (
          "This job needs "
          & format_number (queued_of d)
          & " credits but you have "
          & format_number p.available
          & "."),
    )
    else (
      if d.is_duplicate then s else refetch (record_job p d today (charge p (queued_of d) now s)),
      record (leave f) {
        upload_stats = some (record {
          email_count = nullish d.total 0;
          duplicate_count = nullish d.duplicates_removed 0;
          job_id = d.job_id;
          file_name = p.file.name;
          file_size = p.file.size;
        });
        idempotency_key = none;
        selected_file = none;
      },
      none,
    )
