-- ===== src/Verify/Files.antt =====
-- The file that is uploaded, and the key under which its retries are one job.
use emailjachai.Common.{
  ℕ, ◌≤◌, ◌<◌, String, ◌≡◌, ◌≢◌, ◌⊎◌, refl, sym, ap, subst, ◌∙◌, Bool, true, false, ◌||◌, Option,
  none, some, List, [], ◌∷◌, inl, inr, arith, Bool-cases, str_eq, ltb, All,
}
use emailjachai.Verify.{Desk}
use emailjachai.Verify.Upload.{
  File, Form, Pending, Start, ignored, refused, sent, Answer, granted, failed, thrown, max_size,
  is_allowed_type, selection_key, handle_file_select, available_credits, key_of, pending_for, busy,
  begin_file, begin_upload, finish_upload,
}

-- A file is taken exactly when its type or its name is one of those allowed and it has at most 200 MB:
-- then it is selected under a key of its own, with no error. Otherwise there is an error, the file that
-- was selected before stays, and its key is gone. In both cases the result of the last upload is
-- cleared and nothing else changes.
pub handle_file_select_lem :
    (uuid : Option String) (file : File) (f : Form)
    → ((is_allowed_type file ≡ true)
        × (file.size ≤ max_size)
        × (handle_file_select uuid (some file) f ≡ (
          record f {
            upload_stats = none;
            selected_file = some file;
            idempotency_key = some (selection_key uuid file);
          },
          none,
        )))
      ⊎ (((is_allowed_type file ≡ false) ⊎ (max_size < file.size))
          × ((handle_file_select uuid (some file) f).0
              ≡ record f { upload_stats = none; idempotency_key = none })
          × ((handle_file_select uuid (some file) f).1 ≢ none))
unfolding handle_file_select
handle_file_select_lem uuid file f = elim (Bool-cases (is_allowed_type file)) [
  | inr e ↦ inr (inl e, rw e refl, rw e (λ h. cc h))
  | inl e ↦ elim (Bool-cases (ltb max_size file.size)) [
    | inl k ↦ inr (inr (ground arith), rw (e, k) refl, rw (e, k) (λ h. cc h))
    | inr k ↦ inl (e, ground arith, rw (e, k) refl)
  ]
]

-- A press of the upload button and what becomes of it: the page's state at the time and the answer.
pub record Attempt : Type 0 where
  pub is_maintenance : Bool
  pub uuid : Option String
  pub now : ℕ
  pub today : String
  pub desk : Desk
  pub answer : Answer

abbrev pub settle : Attempt → Form → Start → Form × Option (File × String)
settle a f ignored = (f, none)
settle a f (refused m) = (f, none)
settle a f (sent p g) = ((finish_upload p a.answer a.now a.today g a.desk).1, some (p.file, p.key))

-- The form after an attempt, and the request that was sent, as its file and its key.
unfoldable pub attempt : Attempt → Form → Form × Option (File × String)
attempt a f = settle a f (begin_upload a.is_maintenance a.uuid a.now f a.desk)

abbrev pub add_request : Option (File × String) → List (File × String) → List (File × String)
add_request none xs = xs
add_request (some x) xs = x ∷ xs

-- The requests of a sequence of attempts.
unfoldable pub requests : List Attempt → Form → List (File × String)
unfolding attempt
requests [] f = []
requests (a ∷ rest) f = add_request (attempt a f).1 (requests rest (attempt a f).0)

-- The server did not take the file.
abbrev pub is_failure : Answer → Bool
is_failure (granted d) = false
is_failure (failed m) = true
is_failure (thrown m) = true

-- The form holds the file under the key.
abbrev Holds : File → String → Form → Type 0
Holds file key f = (f.selected_file ≡ some file) × (f.idempotency_key ≡ some key)

finish_upload_failed :
    (p : Pending) (a : Answer) (now : ℕ) (today : String) (g : Form) (u : Desk)
    → is_failure a ≡ true
    → (finish_upload p a now today g u).1 ≡ record g { is_submitting = false; is_uploading = false }
unfolding finish_upload
finish_upload_failed p (granted d) now today g u h = absurd (cc h)
finish_upload_failed p (failed m) now today g u h = refl
finish_upload_failed p (thrown m) now today g u h = refl

-- The form that an attempt leaves, and that no other request than for the file under the key goes out.
abbrev Keeps : File → String → Form × Option (File × String) → Type 0
Keeps file key r = Holds file key r.0 × ((r.1 ≡ none) ⊎ (r.1 ≡ some (file, key)))

key_of-held :
    (key : String) (uuid : Option String) (file : File) (now : ℕ)
    → str_eq key "" ≡ false
    → key_of (some key) uuid file now ≡ key
key_of-held key uuid file now n = rw n refl

sent-Keeps :
    (a : Attempt) (file : File) (key : String) (f : Form)
    → is_failure a.answer ≡ true
    → str_eq key "" ≡ false
    → Holds file key f
    → Keeps file key (
        settle a f (
          sent
            (pending_for a.uuid a.now file f a.desk)
            (busy (key_of f.idempotency_key a.uuid file a.now) f)))
unfolding pending_for
sent-Keeps a file key f h n (e, k) =
    let same = ap (λ x. key_of x a.uuid file a.now) k ∙ key_of-held key a.uuid file a.now n in
    let done =
      finish_upload_failed (pending_for a.uuid a.now file f a.desk) a.answer a.now a.today
        (busy (key_of f.idempotency_key a.uuid file a.now) f) a.desk h in
    (
      (
        ap (λ x. x.selected_file) done ∙ e,
        ap (λ x. x.idempotency_key) done ∙ ap {B = Option String} some same,
      ),
      inr (ap {B = Option (File × String)} (λ x. some (file, x)) same),
    )

attempt-Keeps :
    (a : Attempt) (file : File) (key : String) (f : Form)
    → is_failure a.answer ≡ true
    → str_eq key "" ≡ false
    → Holds file key f
    → Keeps file key (attempt a f)
unfolding attempt begin_upload begin_file
attempt-Keeps a file key f h n (e, k) =
    subst (λ o. Keeps file key (settle a f (begin_file a.is_maintenance a.uuid a.now o f a.desk)))
      (sym e)
      (elim (Bool-cases (a.is_maintenance || f.is_submitting)) [
        | inl b ↦ rw b ((e, k), inl refl)
        | inr b ↦ elim (Bool-cases (ltb (available_credits a.desk) 1)) [
          | inl c ↦ rw (b, c) ((e, k), inl refl)
          | inr c ↦ rw (b, c) (sent-Keeps a file key f h n (e, k))
        ]
      ])

requests-Holds :
    (xs : List Attempt) (file : File) (key : String) (f : Form)
    → All (λ a. is_failure a.answer ≡ true) xs
    → str_eq key "" ≡ false
    → Holds file key f
    → All (λ r. r ≡ (file, key)) (requests xs f)
unfolding requests
requests-Holds [] file key f h n held = tt
requests-Holds (a ∷ xs) file key f (h, hs) n held =
    let (next, out) = attempt-Keeps a file key f h n held in
    let rest = requests-Holds xs file key (attempt a f).0 hs n next in
    elim out [
      | inl e ↦
          subst (λ o. All (λ r. r ≡ (file, key)) (add_request o (requests xs (attempt a f).0)))
            (sym e) rest
      | inr e ↦
          subst (λ o. All (λ r. r ≡ (file, key)) (add_request o (requests xs (attempt a f).0)))
            (sym e) (refl, rest)
    ]

-- However often the upload of a selected file is tried while the server does not take it, every request
-- that goes out carries that file and the one key that it got when it was selected: its retries are one
-- job. The key is not empty.
pub requests-handle_file_select :
    (xs : List Attempt) (uuid : Option String) (file : File) (f : Form)
    → is_allowed_type file ≡ true
    → file.size ≤ max_size
    → str_eq (selection_key uuid file) "" ≡ false
    → All (λ a. is_failure a.answer ≡ true) xs
    → All
        (λ r. r ≡ (file, selection_key uuid file))
        (requests xs (handle_file_select uuid (some file) f).0)
unfolding handle_file_select
requests-handle_file_select xs uuid file f ok small n h =
    let fits : ltb max_size file.size ≡ false = ground arith in
    requests-Holds xs file (selection_key uuid file) _ h n (rw (ok, fits) (refl, refl))
