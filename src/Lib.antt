-- ===== src/Lib.antt =====
-- The backend of an offline inspection app, whose clients edit inspections without a network and
-- deliver their operations later: possibly twice, late, and while others edit the same fields.
--
-- The parts and their files. Paths of the program are under backend/internal.
--
--   Json, Json/Equality   JSON trees, the values that encoding/json decodes them to, and `equalJSON`
--                         of api/models.go. A `RawMessage` is an optional tree; `none` is the empty
--                         one. A member that is repeated in an object: the last one counts.
--   Models                the wire types of api/models.go: `Op`, `OpResult` and the parts of them. The
--                         texts of codes, states and messages are constructors. `Models/Fields` has
--                         the editable fields, `Models/Outside` the parameters of the model.
--   Merge                 `classifyField` of api/models.go and `decodeStr` of api/handlers_sync.go.
--   Db                    the tables of db/migrations/0001_init.sql as lists of rows, and lookups.
--   Tx                    what the handlers run in: a state-passing monad over the tables. Each call of
--                         the database takes an outcome from a list: it is answered, refused with no
--                         effect, or the answer is lost after its effect, or the rows of its result
--                         break off: then a loop that does not ask rows.Err goes on with those it saw.
--                         Errors are values. With the list at its end every call is answered.
--   Snapshot              `scanInspection` and `loadDTO` of api/handlers_inspection.go.
--   Sync/Validate         `validateChanges` of api/handlers_sync.go.
--   Sync/Statements       the SQL statements of that file.
--   Sync/Fields           `createInspection` and `writeField`.
--   Sync/Conflicts        `recordConflict`.
--   Sync/Upsert           the upsert and delete branches of `applyOpTx`.
--   Sync/Resolve          `applyResolve`, and `applyOpTx` itself.
--   Sync/Ledger           `applyOp` with its transaction and the ledger, and the handler `sync`.
--   Inspections           `fetchOne`, `getInspection`, `attachmentsFor`, `conflictsFor` and the endpoint
--                         `resolveConflict` of api/handlers_inspection.go.
--   Inspections/Listing   `listInspections` with its bulk queries.
--   Uploads               `authorizeUpload`, `putPart` and `completeUpload` of api/handlers_uploads.go;
--                         Uploads/Start has `createUpload`, Uploads/Resume `uploadStatus`, Uploads/Fetch
--                         `attachmentContent` and `downloadAttachment`, Uploads/ContentType `sanitizeCT`.
--   Store                 `New`, `NewWithRetry`, `ensureBucket` and `CompletedParts` of store/store.go;
--                         Store/Calls has the methods that pass a call on to the S3 client.
--   Retry                 the loop of `NewWithRetry` of that file and of `ConnectWithRetry` of db/db.go.
--   Auth                  auth/auth.go, `login` and `me` of api/handlers_auth.go, and the middleware
--                         `auth` of api/server.go.
--   Server                api/server.go: Server/Routes has the table of routes and what http.ServeMux makes
--                         of a request, Server/Writer `writeJSON` and `writeErr`, Server/Replies the codes
--                         and headers with which the handlers answer and `Ready` of db/db.go,
--                         Server/Handlers the handlers of the routes, Server/Middleware `cors`,
--                         `recoverer` and a whole request.
--   Migrate               `Migrate`, `migrateEmbedded` and `applySQL` of db/db.go.
--   Seed                  `Seed` of that file.
--   Env                   `env`, `envInt` and the configuration of backend/main.go.
--   Boot                  `main` of that file.
--   Base                  library names, Boolean tests, and `Base/Rows` for lists of rows.
--
-- How they interact: `sync` runs `applyOp` on each operation in order. `applyOp` opens a transaction,
-- answers from the ledger `processed_ops` if it can, else runs `applyOpTx` and writes a terminal result
-- to the ledger in the same transaction. `applyOpTx` merges each changed field against its row of
-- `field_revs`, which `Merge` decides, writes it or records a conflict, and ends with a snapshot.
--
-- `main` migrates and seeds the tables and serves. A request goes through `recoverer`, `cors` and the mux
-- to the handler of its route, which runs for the claims of a token where the route is behind `auth`.
--
-- The proofs are in the other modules under Sync: Steps shows, for any preorder on tables that every
-- statement respects, that a whole operation respects it. Evolves, Confined and Lineage are such
-- preorders; Ownership says what is refused; Delivery and Effect lift this to `applyOp`, and History to
-- any sequence of deliveries, Batch to a request. Merging, Upserted, Submission and
-- Refreshing look into `applyOpTx`, Isolation and Replay at deliveries. Keyed is about
-- the unique keys, Pending and Unlost about conflicts that wait for a choice, Resolution about the
-- choice. The modules below Inspections, Uploads, Store, Retry, Auth and Env are about those parts.
-- Server/Walk, Reading and Guarded show that a whole request respects what the statements of the uploads
-- and the deliveries of its caller respect; Served, Isolation and Requests use it. Finishes and Answers
-- are about what is written, Routes/Apart and Routes/Unique about the table of routes. Seed/Seeded
-- is about a run of the seed that ends, Seed/Quiet about a second one, Seed/Start about one that
-- succeeds, Seed/Kept about what operations leave of it; the modules under Boot join these.
--
-- Conventions. An id is a number, what `uuid.Parse` makes of the text. A Go map is an association list,
-- so a run takes one of the orders that Go may choose. Times are the numbers that the clock of `World`
-- shows. Deliveries are in sequence: the advisory lock and the row locks serialise those that share an
-- operation or an inspection. The loops over lists and texts need no fuel. The loop over the pages of
-- parts runs on fuel: an upload has parts from 1 to 10000, and each page ends at a later one, so that
-- 10001 is enough. The loop of attempts is over their number.
--
-- The other handlers run outside a transaction: each statement stays when a later one fails. Inside a
-- transaction a result that breaks off is an error, since it ends the transaction too. What the
-- object store answers to a call is an argument of the handler, and so are the text of a fresh id and
-- the body that was read.
--
-- Parameters, in `Models/Outside`: the parsing of numbers and of ids, how jsonb spells a value, how the
-- ledger reads a result back, and whether Postgres refuses a statement with an unused parameter.
-- `KeepsValues` states that jsonb keeps the value of a text. The token library, bcrypt, Go's contexts,
-- os.Getenv and the S3 client are arguments of what uses them; `AcceptsSigned`, `RejectsUnsigned`,
-- `ListsParts` and `RefusesNoTime` state what their documentation says. A number of the environment is
-- the 64 bits of an int64.
--
-- The path of a request is the list of its segments, once the mux has cleaned it; which route
-- http.ServeMux picks follows its documentation. `recoverer` is modelled over a handler that may panic;
-- the handlers of the model do not. What each attempt to connect comes to, the embedded files, what
-- Postgres makes of SQL, bcrypt and the end of the HTTP server are arguments of `main`; what the object
-- store answers may differ from one request to the next. A chunk size is not negative.
--
-- Not modelled: the frontend; the bytes that encoding/json writes, and the header Allow of the mux; the
-- signals and timeouts of main.go; the text of the migrations beyond the tables, keys and references
-- that they declare.
pub mod Auth
pub mod Base
pub mod Json
pub mod Models
pub mod Merge
pub mod Db
pub mod Tx
pub mod Migrate
pub mod Seed
pub mod Snapshot
pub mod Retry
pub mod Store
pub mod Server
pub mod Sync
pub mod Uploads
pub mod Env
pub mod Boot
pub mod Inspections
mod Tests
