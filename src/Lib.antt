-- ===== src/Lib.antt =====
-- SlideLens reviews slide decks: a user uploads a PPTX or PDF (with a recording of the talk and an
-- Excel file, if they like), one review is taken from one of their two wallets, a worker runs a
-- pipeline of analyzers over the slides, and the findings, a score and a fixable copy of the deck
-- come back as a report. This library models the Python back end as functions and proves what makes
-- its parts correct.
--
-- The parts, and how they interact:
--   * Prelude: tests on numbers, lists, Python's integers (Int), sorting (Sort), methods that change
--     a state and may raise (Exec), the text and path operations of the standard library (Text), and
--     tables of rows with a key (Table). Double is the interface of Python's floats, with the laws
--     that the proofs need; Double/FixedPoint fills it with thousandths, which the tests run on.
--   * Schemas and Geometry (backend/core/schemas.py, geometry.py): findings and frames; the
--     conversion and projection of frames and their overlap.
--   * Aggregate (backend/core/aggregate.py): removal of duplicates with a model as the judge, the cap
--     per slide, the order of the findings and the score of the deck.
--   * Ingest (backend/core/ingest.py): the checks of a deck, its conversion and rendering; Audio, the
--     extraction of a recording. The tools' answers are inputs.
--   * Llm (backend/core/llm/client.py, config.py, utils.py): a chat call with retries, a completion
--     with one repair, and what they cost; Calls, the calls that look at pictures or listen.
--   * Analyzers (backend/core/context.py, analyzers/base.py, run.py): the context and the steps that
--     may fail one by one. Responses has the answers of the models (analyzers/schemas.py) and the
--     client's calls, one for each schema. Views (analyzers/slide.py, deck.py) and Sheets look at
--     slides and decks; Zoom (analyzers/zoom.py) at regions, with Crops, Accepted and Zoomed on what
--     comes of them; Charts and ChartSlides (analyzers/charts.py) at charts. Delivery and Metrics
--     (transcribe.py) measure the speech, Pacing, Windows, Spans and Aligned
--     (analyzers/crossmodal.py) say when a slide was shown, and Speech, Isolation and SpeechStep hold the speech against it.
--   * Fixer (backend/core/fix.py): the deck as python-pptx shows it and the control check; Rules, the
--     three edits, with Edits and Alignment on what they change; Match, the shape that a finding
--     means; Apply, the fixer, with Steps and Rollback on what it leaves.
--   * Entities (backend/app/models/entities.py): the database. Services holds the errors and the
--     World of a session: the committed database, the session's view of it, the files, the queue and
--     the mails. Its children are the wallets (Limits, backend/app/services/limits.py), the files
--     (Storage, storage.py and file_assets.py), the reviews (Reviews, review_service.py), the votes
--     and fixes (Findings, finding_service.py and finding_mapper.py) and the rehearsals (Rehearsals,
--     rehearsal_service.py). Frame says which parts of the World an action leaves alone.
--   * Worker (backend/worker/tasks.py): process_review, and in Rehearsals process_rehearsal. They take
--     the pipeline and the analysis of a recording as functions, whatever these are.
--   * Auth (backend/app/security.py): tokens, with PyJWT as an interface and its laws; Accounts and
--     Emails (app/auth.py, deps.py), registration and log-in; Files (api/v1/files.py), downloads.
--   * Lifecycle composes Services and Worker: the states of a review's life as a relation, and the
--     request and the job as an implementation of it.
--   * Report (backend/core/annotate.py, report.py, report_schemas.py): the frames on the pictures of
--     the slides, the report and its export; Frames, Pictures and Scored say what comes of
--     them.
--   * Pipeline (`_run_pipeline` of backend/worker/tasks.py) composes Ingest, Analyzers, Aggregate and
--     Report into the function that Worker takes; what it calls outside is one record of functions.
--
-- How code becomes definitions. A method is a function with its name; where it awaits something that
-- may raise in the middle, the rest of it is a definition of its own. A handler changes a World and
-- returns a value or an error; what it wrote before it raised stays written, and `rollback` and
-- `commit` are the session's. An external call that may fail asks a function `fails` whether this one
-- does, and that function is arbitrary. The session is
-- the only one at work: the row locks of the reservation are taken to serialize the requests of a
-- user, and interleavings of two sessions are not modelled. Identifiers (UUIDs) are numbers from a
-- supply, times are seconds. A file name and a text whose characters matter are lists of code points.
--
-- Loops recur on the list that they go through, on the attempts left, or (Analyzers/Sheets) on the
-- number of the items, of which each round takes one at least. The numbers of the code are native
-- natural numbers or, where they may be negative, ℤ; Python's integers do not overflow.
--
-- Not modelled, since they are libraries or I/O: the other HTTP routes and their schemas, the mail
-- server, Redis, Sentry, Prometheus and Langfuse, the prompts, the template and
-- the printer of the report, the drawing on pictures, the migrations and the browser client. Calls that run at the same time
-- (`asyncio.gather`) are made one after another, each to its end. Whether a call fails is asked for
-- each place in the code that makes it, not for each call. The commits of the worker's own jobs do
-- not fail, and a job is not cancelled by its time-out. python-pptx, Pillow, soffice and poppler
-- raise in Ingest only what the code catches: a binary that is missing, a picture that cannot be
-- written and a presentation that breaks while its slides are read are left out.
pub mod Prelude
pub mod Double
pub mod Schemas
pub mod Geometry
pub mod Aggregate
pub mod Entities
pub mod Services
pub mod Ingest
pub mod Llm
pub mod Fixer
pub mod Worker
pub mod Analyzers
pub mod Auth
pub mod Lifecycle
pub mod Report
pub mod Pipeline
