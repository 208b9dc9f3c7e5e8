-- ===== src/Entities.antt =====
-- The database's tables (backend/app/models/entities.py), each row a record and each table a list
-- of rows. Identifiers are numbers, timestamps are whole seconds, and a file name or a path is the
-- list of its characters. Back references and indexes are the database's and are not modelled.
use slidelens.Prelude.{ℕ, String, Bool, Option, List, ◌==◌}
use slidelens.Prelude.Int.{ℤ}
use slidelens.Schemas.{Finding, BBox, Category, Severity}

abbrev pub FileName : Type 0
FileName = List ℕ

abbrev pub Bytes : Type 0
Bytes = List ℕ

pub data UserPlan : Type 0 where
  free paid : UserPlan

-- `ReviewStatus` and `RehearsalStatus` have the same values.
pub data ReviewStatus : Type 0 where
  queued processing done failed : ReviewStatus

pub data FileAssetKind : Type 0 where
  deck_original slide_png annotated_png fixed_pptx audio data_xlsx report_pdf : FileAssetKind

-- The wallet that a review was paid from (backend/app/services/limits.py).
pub data CreditSource : Type 0 where
  free balance admin : CreditSource

pub record User : Type 0 where
  pub id : ℕ
  pub email : String
  pub password_hash : String
  pub plan : UserPlan
  pub free_reviews_left : ℕ
  pub balance_reviews : ℕ
  pub email_verified : Bool
  pub is_admin : Bool

-- `core.schemas.DeliveryMetrics`
pub record DeliveryMetrics (W : Type 0) : Type 0 where
  pub words_per_minute : W
  pub filler_words : List (String × ℕ)
  pub long_pauses : List W

pub record Review (W : Type 0) : Type 0 where
  pub id : ℕ
  pub user_id : ℕ
  pub status : ReviewStatus
  pub score : Option ℤ
  pub fail_reason : Option String
  pub deck_filename : FileName
  pub n_slides : Option ℕ
  pub delivery_metrics : Option (DeliveryMetrics W)
  pub has_audio : Bool
  pub has_data : Bool
  pub credit_source : Option CreditSource
  pub created_at : ℕ
  pub finished_at : Option ℕ

pub record FindingRow (W : Type 0) : Type 0 where
  pub id : ℕ
  pub review_id : ℕ
  pub slide_num : Option ℤ
  pub category : Category
  pub severity : Severity
  pub title : String
  pub description : String
  pub fix_suggestion : String
  pub bbox : Option (BBox W)
  pub screenshot_asset_id : Option ℕ
  pub auto_fixable : Bool
  pub auto_fixed : Bool
  pub source : Option String
  pub user_flag : Bool
  pub user_like : Bool

pub record FileAsset : Type 0 where
  pub id : ℕ
  pub review_id : ℕ
  pub kind : FileAssetKind
  pub storage_path : FileName
  pub size_bytes : ℕ
  pub version : ℕ
  pub expires_at : ℕ

-- A property's value.
pub data Property (W : Type 0) : Type 0 where
  number : ℤ → Property W
  amount : W → Property W
  text : String → Property W
  truth : Bool → Property W

pub record Event (W : Type 0) : Type 0 where
  pub id : ℕ
  pub user_id : Option ℕ
  pub name : String
  pub properties : List (String × Property W)

-- `core.schemas.SlideTiming`, as a request sends it and the row stores it.
pub record SlideTiming (W : Type 0) : Type 0 where
  pub slide_num : ℕ
  pub start : W
  pub end : W

pub record Rehearsal (W : Type 0) : Type 0 where
  pub id : ℕ
  pub review_id : ℕ
  pub status : ReviewStatus
  pub fail_reason : Option String
  pub audio_path : Option FileName
  pub slide_timings : List (SlideTiming W)
  pub delivery_metrics : Option (DeliveryMetrics W)
  pub findings : List (Finding W)
  pub attempt_num : ℕ
  pub finished_at : Option ℕ

pub record Db (W : Type 0) : Type 0 where
  pub users : List User
  pub reviews : List (Review W)
  pub findings : List (FindingRow W)
  pub assets : List FileAsset
  pub events : List (Event W)
  pub rehearsals : List (Rehearsal W)

-- Each value stands for its string: equal numbers, equal strings.
abbrev status_num : ReviewStatus → ℕ
status_num queued = 0
status_num processing = 1
status_num done = 2
status_num failed = 3

abbrev kind_num : FileAssetKind → ℕ
kind_num deck_original = 0
kind_num slide_png = 1
kind_num annotated_png = 2
kind_num fixed_pptx = 3
kind_num audio = 4
kind_num data_xlsx = 5
kind_num report_pdf = 6

abbrev pub same_status : ReviewStatus → ReviewStatus → Bool
same_status a b = status_num a == status_num b

abbrev pub same_kind : FileAssetKind → FileAssetKind → Bool
same_kind a b = kind_num a == kind_num b
