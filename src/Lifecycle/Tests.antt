-- ===== src/Lifecycle/Tests.antt =====
-- A user with one free review left, whose review fails in the pipeline.
use slidelens.Prelude.{Bool, true, false, some, [], ◌∷◌}
use slidelens.Prelude.Int.{ℤ}
use slidelens.Prelude.Exec.{Result, err}
use slidelens.Prelude.Text.{codes}
use slidelens.Double.FixedPoint.{fixed_double}
use slidelens.Entities.{User, UserPlan, Db}
use slidelens.Services.{World, Error, ingest, empty_deck}
use slidelens.Services.Reviews as Reviews
use slidelens.Services.Reviews.{Upload}
use slidelens.Worker.{Site, Inputs, PipelineOutput}

abbrev vera : User
vera = record {
  id = 7;
  email = "vera@example.com";
  password_hash = "h";
  plan = UserPlan.free;
  free_reviews_left = 1;
  balance_reviews = 0;
  email_verified = true;
  is_admin = false;
}

abbrev small_db : Db ℤ
small_db = record {
  users = vera ∷ [];
  reviews = [];
  findings = [];
  assets = [];
  events = [];
  rehearsals = [];
}

abbrev start : World ℤ
start = record {
  committed = small_db;
  db = small_db;
  files = [];
  queue = [];
  outbox = [];
  next_id = 50;
}

abbrev creates : Reviews.Site → Bool
creates site = false

abbrev runs : Site → Bool
runs site = false

abbrev empty_pipeline : Inputs → Result Error (PipelineOutput ℤ)
empty_pipeline inputs = err (ingest empty_deck)

abbrev deck : Upload
deck = record { filename = some (codes "Deck.PPTX"); content = 80 ∷ 75 ∷ [] }
