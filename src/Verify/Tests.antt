-- ===== src/Verify/Tests.antt =====
-- One address and one file.
use emailjachai.Common.{
  ◌≤◌, ◌<◌, ◌≢◌, ◌⊎◌, ℕ, ◌≡◌, refl, true, false, none, some, List, [], ◌∷◌, arith, All, String,
}
use emailjachai.Common.Text.{show_num}
use emailjachai.Amount.{parse_credits}
use emailjachai.Stores.Dashboard.{DashboardStats}
use emailjachai.Verify.{Desk}
use emailjachai.Verify.Single as Single
use emailjachai.Verify.Single.{Answer, answered, thrown, Pending, begin_verify, finish_verify}
use emailjachai.Verify.Laws.{Agree, undone, IsReady, finish-begin_verify, failure_overwrites}
use emailjachai.Verify.Upload as Upload
use emailjachai.Verify.Upload.{File, max_size, is_allowed_type, selection_key, handle_file_select}
use emailjachai.Verify.Files.{
  Attempt, requests, handle_file_select_lem, requests-handle_file_select,
}

abbrev figures : String → DashboardStats
figures credits = record {
  credits_remaining = credits;
  lifetime_verifications = "3";
  today_verifications = "0";
  api_verifications = none;
  total_jobs = 1;
  active_jobs = 0;
  weekly_activity = none;
  usage_breakdown = none;
}

abbrev desk : ℕ → String → Desk
desk balance credits = record {
  dashboard = record {
    stats = some (figures credits);
    recent_jobs = [];
    is_loading_stats = false;
    last_fetched_stats = none;
  };
  credits = record { balance = balance; is_loading = false; last_fetched = none };
  fetches = 0;
}

abbrev form : Single.Form
form = record { email = "a@b.c"; is_loading = false; error = none; is_submitting = false }

-- The form, and what is held, once the verification has begun.
abbrev begun : Pending × Single.Form × Desk
begun = (
  record {
    email = b'a' ∷ b'@' ∷ b'b' ∷ b'.' ∷ b'c' ∷ [];
    key = "k";
    previous_stats = some (figures "7");
    previous_balance = 7;
  },
  record { email = "a@b.c"; is_loading = true; error = none; is_submitting = true },
  record {
    dashboard = record {
      stats = some (figures "6");
      recent_jobs = [];
      is_loading_stats = false;
      last_fetched_stats = some 5;
    };
    credits = record { balance = 6; is_loading = false; last_fetched = none };
    fetches = 0;
  },
)

desk-begun : begin_verify false "k" 5 form (desk 7 "7") ≡ some begun
unfolding begin_verify show_num
desk-begun = refl

desk-Agree : Agree (desk 7 "7")
unfolding parse_credits
desk-Agree = refl

abbrev lost : Answer ℕ
lost = thrown "offline"

finish-begin_verify_example :
    ((finish_verify begun.0 lost 9 begun.1 begun.2).0.dashboard.stats ≡ some (figures "7"))
    × ((finish_verify begun.0 lost 9 begun.1 begun.2).0.credits ≡ (desk 7 "7").credits)
    × IsReady lost form (finish_verify begun.0 lost 9 begun.1 begun.2).1
finish-begin_verify_example =
    finish-begin_verify false "k" 5 9 form (desk 7 "7") begun lost desk-begun refl

-- A balance of a thousand that arrives meanwhile is set back to seven.
failure_overwrites_example :
    ((finish_verify begun.0 lost 9 form (desk 1000 "1,000")).0.credits.balance ≡ 7)
    × ((finish_verify begun.0 lost 9 form (desk 1000 "1,000")).0.dashboard.stats
        ≡ undone lost (some (figures "7")) (some (figures "1,000")))
failure_overwrites_example =
    failure_overwrites false "k" 5 9 form form (desk 7 "7") (desk 1000 "1,000") begun lost
      desk-begun refl

abbrev file : File
file = record { name = "list.csv"; type = ""; size = 10; last_modified = 1 }

abbrev empty_form : Upload.Form
empty_form = record {
  is_drag_over = false;
  is_uploading = false;
  upload_stats = none;
  selected_file = none;
  is_submitting = false;
  idempotency_key = none;
}

abbrev attempts : List Attempt
attempts =
    record {
      is_maintenance = false;
      uuid = some "other";
      now = 5;
      today = "today";
      desk = desk 7 "7";
      answer = Upload.thrown "offline";
    }
    ∷ record {
      is_maintenance = false;
      uuid = none;
      now = 9;
      today = "today";
      desk = desk 7 "7";
      answer = Upload.failed none;
    }
    ∷ []

requests_test :
    requests attempts (handle_file_select (some "first") (some file) empty_form).0
    ≡ (file, "first") ∷ (file, "first") ∷ []
unfolding requests handle_file_select Upload.begin_upload Upload.finish_upload
requests_test = refl

file_allowed : is_allowed_type file ≡ true
unfolding is_allowed_type
file_allowed = refl

requests-handle_file_select_example :
    All
      (λ r. r ≡ (file, selection_key (some "first") file))
      (requests attempts (handle_file_select (some "first") (some file) empty_form).0)
requests-handle_file_select_example =
    requests-handle_file_select attempts (some "first") file empty_form file_allowed (omega arith)
      refl (refl, (refl, tt))

handle_file_select_lem_example :
    ((is_allowed_type file ≡ true)
      × (file.size ≤ max_size)
      × (handle_file_select none (some file) empty_form ≡ (
        record empty_form {
          upload_stats = none;
          selected_file = some file;
          idempotency_key = some (selection_key none file);
        },
        none,
      )))
    ⊎ (((is_allowed_type file ≡ false) ⊎ (max_size < file.size))
        × ((handle_file_select none (some file) empty_form).0
            ≡ record empty_form { upload_stats = none; idempotency_key = none })
        × ((handle_file_select none (some file) empty_form).1 ≢ none))
handle_file_select_lem_example = handle_file_select_lem none file empty_form
