-- ===== src/Services/Tests.antt =====
-- A user with one free and two bought reviews and a review of theirs, and each theorem there.
use slidelens.Prelude.{ℕ, ◌+◌, ◌≡◌, refl, Bool, true, false, none, some, [], ◌∷◌, arith}
use slidelens.Prelude.Int.{ℤ, pos}
use slidelens.Prelude.Text.{codes, starts_with, join_parts, split_parts, same_codes}
use slidelens.Prelude.Table.{row_at}
use slidelens.Double.FixedPoint.{fixed_double}
use slidelens.Schemas.{Finding, chart, major}
use slidelens.Services.Rehearsals.Report.{IsPrevious, previous_of, previous_of-IsPrevious}
use slidelens.Entities.{
  Rehearsal, ReviewStatus, failed, User, UserPlan, Review, Db, SlideTiming, queued, done, free,
}
use slidelens.Services.Rehearsals.{create_rehearsal}
use slidelens.Services.Rehearsals.Attempts.{Numbered, create_rehearsal-Numbered}
use slidelens.Services.{World}
use slidelens.Services.Limits.{user_id_of}
use slidelens.Services.Limits.Laws.{check_and_reserve_lem, ReservesFrom, payer}
use slidelens.Services.Storage.{absolute, joined, save}
use slidelens.Services.Storage.Files.{Stored, save-Stored}
use slidelens.Services.Reviews.{Upload, Site, create_review}
use slidelens.Services.Reviews.Charge.{Charged, create_review_lem}
use slidelens.Services.Reviews.Access.{get_report, Reported, get_report-Reported}
use slidelens.Services.Findings.{finding_to_row, row_to_finding, flag_finding}
use slidelens.Services.Findings.Laws.{row_to_finding-finding_to_row, Voted, flag_finding-Voted}

abbrev anna : User
anna = record {
  id = 7;
  email = "anna@example.org";
  password_hash = "";
  plan = UserPlan.free;
  free_reviews_left = 1;
  balance_reviews = 2;
  email_verified = true;
  is_admin = false;
}

abbrev chart_finding : Finding ℤ
chart_finding = record {
  id = 20;
  slide_num = some (pos 1);
  category = chart;
  severity = major;
  title = "t";
  description = "d";
  fix_suggestion = "f";
  bbox = some (record { x = pos 100; y = pos 100; w = pos 200; h = pos 200 });
  auto_fixable = true;
  auto_fixed = false;
  source = none;
}

abbrev first_review : Review ℤ
first_review = record {
  id = 9;
  user_id = 7;
  status = queued;
  score = none;
  fail_reason = none;
  deck_filename = codes "deck.pptx";
  n_slides = none;
  delivery_metrics = none;
  has_audio = false;
  has_data = false;
  credit_source = some free;
  created_at = 100;
  finished_at = none;
}

abbrev small_db : Db ℤ
small_db = record {
  users = anna ∷ [];
  reviews = first_review ∷ [];
  findings = finding_to_row 9 chart_finding ∷ [];
  assets = [];
  events = [];
  rehearsals = [];
}

abbrev start : World ℤ
start = record {
  committed = small_db;
  db = small_db;
  files = [];
  queue = [];
  outbox = [];
  next_id = 50;
}

found_anna : row_at user_id_of 7 start.db.users ≡ some anna
unfolding row_at
found_anna = refl

abbrev no_failure : Site → Bool
no_failure site = false

abbrev deck : Upload
deck = record { filename = some (codes "Deck.PPTX"); content = 80 ∷ 75 ∷ [] }

check_and_reserve_lem_example : ReservesFrom 7 anna start (payer anna)
check_and_reserve_lem_example = check_and_reserve_lem 7 anna start found_anna

create_review_lem_example :
    Charged
      (codes "srv" ∷ [])
      no_failure
      200
      300
      7
      deck
      none
      none
      anna
      start
      (create_review (codes "srv" ∷ []) no_failure 200 300 7 deck none none start)
create_review_lem_example =
    create_review_lem (codes "srv" ∷ []) no_failure 200 300 7 deck none none anna start found_anna
      refl refl refl

row_to_finding-finding_to_row_example :
    row_to_finding (finding_to_row 9 chart_finding) ≡ some chart_finding
row_to_finding-finding_to_row_example = row_to_finding-finding_to_row 9 chart_finding (ground arith)

flag_finding-Voted_example : Voted true false 7 20 start (flag_finding 7 20 start)
flag_finding-Voted_example = flag_finding-Voted 7 20 start

abbrev take : ℕ → ReviewStatus → Rehearsal ℤ
take n status = record {
  id = 60 + n;
  review_id = 9;
  status = status;
  fail_reason = none;
  audio_path = none;
  slide_timings = [];
  delivery_metrics = none;
  findings = [];
  attempt_num = n;
  finished_at = none;
}

-- Two attempts at the review, and one at another.
abbrev reviewed : World ℤ
reviewed = record start {
  db = record small_db {
    reviews = record first_review { status = done } ∷ [];
    rehearsals = take 1 done ∷ take 2 failed ∷ record (take 8 done) { review_id = 10 } ∷ [];
  };
}

abbrev timing : SlideTiming ℤ
timing = record { slide_num = 1; start = pos 0; end = pos 5000 }

abbrev recording : Upload
recording = record { filename = some (codes "take.webm"); content = 1 ∷ [] }

create_rehearsal-Numbered_example :
    Numbered reviewed.db.rehearsals
      (create_rehearsal (codes "srv" ∷ []) false false 7 9 recording (timing ∷ []) reviewed)
create_rehearsal-Numbered_example =
    create_rehearsal-Numbered (codes "srv" ∷ []) false false 7 9 recording (timing ∷ []) reviewed

get_report-Reported_example : Reported 7 9 reviewed (get_report 7 9 reviewed)
get_report-Reported_example = get_report-Reported 7 9 reviewed

save-Stored_example :
    Stored
      (codes "srv" ∷ [])
      (1 ∷ 2 ∷ [])
      (save (codes "srv" ∷ []) false 9 30 (codes "a.pptx") (1 ∷ 2 ∷ []) start)
save-Stored_example = save-Stored (codes "srv" ∷ []) false 9 30 (codes "a.pptx") (1 ∷ 2 ∷ []) start

-- The test of a path by its characters lets a sibling directory through.
absolute-sibling : absolute (codes "srv" ∷ []) (codes "../srv2/x") ≡ some (codes "/srv2/x")
unfolding absolute joined starts_with join_parts split_parts same_codes
absolute-sibling = refl

previous_of-IsPrevious_example :
    IsPrevious 9 4
      (take 1 done ∷ take 2 done ∷ take 3 failed ∷ take 4 done ∷ [])
      (previous_of 9 4 (take 1 done ∷ take 2 done ∷ take 3 failed ∷ take 4 done ∷ []))
previous_of-IsPrevious_example =
    previous_of-IsPrevious 9 4 (take 1 done ∷ take 2 done ∷ take 3 failed ∷ take 4 done ∷ [])
