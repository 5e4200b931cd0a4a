-- ===== src/Lib.antt =====
-- prison_policy_ai: a model of the services behind the prison policy assistant, and what they promise.
--
-- The program is a Python back end (backend/) with a browser client (frontend/web). This library models
-- the identity services, on which every other part stands: they decide who is signed in, what an
-- administrator may do, and that a repeated request takes effect once; the routes that sign in; the
-- leases of the AI jobs; and the operational paperwork, whose records are saved, restored and copied
-- with a revision for every state.
--
-- How the parts meet. Every service is a function of a database session. The model has one record of
-- tables (Identity.Models.Db) and gives each operation the type Exec: a state to a result and a state.
-- A Python exception is a value (Fault.Fault), and what was written before it stays in the state, as it
-- stays in the session until the caller commits or rolls back. Sign-in (Identity.Accounts.Login) is
-- called by the sessions (Identity.Sessions), administration and elevation read and write the same
-- accounts and sessions, and every operation appends to one audit log. The idempotency records are a
-- table of their own, since only the services that claim a key touch it: the paperwork has its tables
-- and that one in its state (Paperwork.Models.PaperworkDb), and a save or a restore calls the idempotency
-- service on it before it writes and when it is done. Paperwork.Service.Refinement has the abstract store
-- that the paperwork implements: a log of states for each record, to which a call appends or not.
--
-- Which file models what:
--   Fault                       the exception classes, and the order of effects of a function that may raise
--   Identity.Crypto             hashlib, hmac and argon2 as parameters, with the laws that the theorems use
--   Identity.Models             backend/persistence/models/{identity,sessions,security}.py
--   Identity.Normalization      backend/identity/normalization.py
--   Identity.Pins               backend/identity/pins.py
--   Identity.Tokens             backend/identity/tokens.py
--   Identity.Accounts           backend/identity/accounts.py: verify_login_pin, lock_minutes and the counters
--   Identity.Administration     backend/identity/accounts.py: the operations of an administrator; Creation
--                               has create_account and bootstrap_first_admin, Signouts has
--                               revoke_account_sessions
--   Identity.Sessions           backend/identity/sessions.py: Defs has what the operations share, Operations
--                               the operations, PinChange change_pin and list_sessions
--   Identity.Elevation          backend/identity/elevation.py
--   Identity.RateLimits         backend/identity/rate_limits.py
--   Identity.Browser            backend/identity/browser_sessions.py
--   Web.Auth                    the transactions of backend/webapp/api_v1/auth.py and web_api/auth.py, with
--                               session_scope of backend/persistence/database.py
--   Jobs.Models, Jobs.Service   backend/persistence/models/jobs.py and backend/jobs/service.py
--   Jobs.Dispatcher             backend/jobs/outbox.py and backend/jobs/dispatcher.py; the Cloud Tasks client is
--                               a parameter
--   Identity.Json, Idempotency  backend/identity/idempotency.py, and the json.dumps that it measures with
--   Paperwork.Models, Schemas   backend/persistence/models/paperwork.py, backend/paperwork/models.py and schemas.py
--   Paperwork.Values            dict.get and == on the JSON of a payload, and the size that is bounded
--   Paperwork.Service           backend/paperwork/service.py and policy.py: reading and references; Rows has
--                               the rows that are written, Saves save_paperwork_record, Restoring
--                               restore_paperwork_record, Copies copy_previous_daily_record, Lists the
--                               queries that are read page by page
--   Paperwork.CountSheet        backend/paperwork/count_sheet.py
--   Paperwork.Counts            backend/paperwork/counts.py: the template; Arithmetic has calculate_count_sheet
--   Paperwork.Daily             backend/paperwork/daily.py: the assignment roster and its coverage;
--                               Derived has its copy and the uniform inspection
-- The other modules of these folders hold theorems and are named for what they prove. Prelude has the
-- tables as lists, with the queries and updates that the services make, and the tests on numbers and
-- texts. Tests has concrete runs.
--
-- Conventions. A UUID and a digest are numbers; a time is a number of microseconds, so a timedelta is a
-- product. A text that the program walks is the list of its code points (Prelude.Texts), another is a
-- string. What a call draws at random (tokens, UUIDs, salts, candidates of a PIN) is an argument. The
-- only loop without a bound in the code is the draw of a temporary PIN: it runs on a list of candidates,
-- and a list that ends first is its own outcome.
--
-- Not modelled. Concurrency of transactions: the row locks and the unique constraints make the services
-- run one after the other on the rows that they touch, and the model runs them so; an IntegrityError of
-- a race is not a branch of it. What is modelled of the row locks is the error of a query with nowait, in the
-- sign-outs of an account: the session rows that other transactions hold are a field of the state. The
-- errors of AuditWriter.append, which validates the details and executes SQL, are not modelled: what is
-- said of an operation that succeeds or is refused is said of a run without them. The unique indexes of the paperwork are checked, since one officer's call
-- alone can meet them. What pydantic does to a payload of one of the seven kinds is a parameter of the
-- paperwork services (Rules), as are the digest of a request, the JSON of a roster (Rosters), and
-- isoformat and its reader (Isoformat). The structure of a count sheet and the approved posts of a roster
-- are read from files and are parameters; so is what str.isalpha, islower and isdigit say of a character.
-- Of the paperwork, record_paperwork_action, count_sheet_content, the payloads of the other daily forms,
-- the states that PostAssignment infers for rosters stored without them, and the messages of warnings are
-- not modelled. Of the jobs, submit_job waits for a model of the reports' access rules. Request metadata
-- and the client version of an audit event are left out, and so are the contents of an audit event beyond
-- its fields, and reading the environment. The checks of Python types at run time (isinstance) hold by
-- the types here.
pub mod Prelude
pub mod Fault
pub mod Identity
pub mod Web
pub mod Jobs
pub mod Paperwork
mod Tests
