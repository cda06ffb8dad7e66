-- ===== src/Sync/Statements.antt =====
-- The statements of backend/internal/api/handlers_sync.go, with the keys and unique indexes of
-- backend/internal/db/migrations/0001_init.sql that they may break.
use cc_005_offline_inspectio.Base.{
  ℕ, String, Bool, true, false, not, ◌&&◌, ◌+◌, Option, none, some, ◌==◌, if◌then◌else◌,
}
use cc_005_offline_inspectio.Base.Rows.{exists, update, insert, select, length}
use cc_005_offline_inspectio.Json.{Json}
use cc_005_offline_inspectio.Json.Equality.{RawMessage}
use cc_005_offline_inspectio.Models.{Field, UploadState}
use cc_005_offline_inspectio.Models.Outside.{Outside}
use cc_005_offline_inspectio.Db.{
  Inspection, FieldRev, Conflict, ProcessedOp, Db, has_id, of_field, open_on,
}
use cc_005_offline_inspectio.Tx.{Result, ok, err, Statement}

abbrev empty_json : String
empty_json = "invalid input syntax for type json"

-- `$n::jsonb` of a RawMessage passed as a text
unfoldable pub to_jsonb : Outside → RawMessage → Result Json
to_jsonb o none = err empty_json
to_jsonb o (some j) = elim (o.jsonb j) [ none ↦ err empty_json | some k ↦ ok k ]

-- a statement whose text uses $1, $3 and $4 of four arguments, and not $2
abbrev pub skipping_parameter {ℓ} : {A : Type ℓ} → Option String → Statement A → Statement A
skipping_parameter none s db = s db
skipping_parameter (some e) s db = err e

-- UPDATE inspections … WHERE id=$1
abbrev pub set_inspection : ℕ → (Inspection → Inspection) → Statement (Unit {0})
set_inspection id f db = ok (tt, record db { inspections = update (has_id id) f db.inspections })

abbrev pub tombstone : ℕ → Inspection → Inspection
tombstone at r = record r { is_deleted = true; rev = r.rev + 1; updated_at = at }

abbrev pub next_rev : ℕ → Inspection → Inspection
next_rev at r = record r { rev = r.rev + 1; updated_at = at }

-- INSERT INTO inspections: its key, and the reference to its owner
abbrev pub insert_inspection : Inspection → Statement (Unit {0})
insert_inspection r db =
    if exists (has_id r.id) db.inspections
    then err "duplicate key value violates unique constraint inspections_pkey"
    else if not (exists (λ u. u.id == r.owner_id) db.users)
    then err "violates foreign key constraint inspections_owner_id_fkey"
    else ok (tt, record db { inspections = insert r db.inspections })

abbrev pub insert_rev : FieldRev → Statement (Unit {0})
insert_rev r db =
    if exists (of_field r.inspection_id r.field) db.field_revs
    then err "duplicate key value violates unique constraint field_revs_pkey"
    else ok (tt, record db { field_revs = insert r db.field_revs })

abbrev pub set_rev : ℕ → Field → (FieldRev → FieldRev) → Statement (Unit {0})
set_rev id field f db =
    ok (tt, record db { field_revs = update (of_field id field) f db.field_revs })

-- INSERT INTO conflicts … RETURNING: its key, and the index of at most one open conflict for a field
abbrev pub insert_conflict : Conflict → Statement Conflict
insert_conflict c db =
    if exists (λ d. d.id == c.id) db.conflicts
    then err "duplicate key value violates unique constraint conflicts_pkey"
    else if exists (open_on c.inspection_id c.field) db.conflicts
    then err "duplicate key value violates unique constraint conflicts_one_open_per_field"
    else ok (c, record db { conflicts = insert c db.conflicts })

abbrev pub set_conflict : ℕ → (Conflict → Conflict) → Statement (Unit {0})
set_conflict id f db = ok (tt, record db { conflicts = update (λ c. c.id == id) f db.conflicts })

abbrev pub insert_processed : ProcessedOp → Statement (Unit {0})
insert_processed p db =
    if exists (λ q. q.op_id == p.op_id) db.processed_ops
    then err "duplicate key value violates unique constraint processed_ops_pkey"
    else ok (tt, record db { processed_ops = insert p db.processed_ops })

abbrev is_completed : UploadState → Bool
is_completed UploadState.completed = true
is_completed _ = false

-- SELECT count(*) FROM attachments WHERE inspection_id=$1 AND status <> 'completed'
unfoldable pub incomplete_attachments : ℕ → Db → ℕ
incomplete_attachments id db =
    length (select (λ a. a.inspection_id == id && not (is_completed a.status)) db.attachments)
