-- ===== src/Db.antt =====
-- The tables of backend/internal/db/migrations/0001_init.sql. A table is the list of its rows in the
-- order of insertion.
mod Tables
pub mod Laws
pub use Tables.*
use cc_005_offline_inspectio.Base.{ℕ, Bool, ◌&&◌, Option, ◌==◌}
use cc_005_offline_inspectio.Base.Rows.{first}
use cc_005_offline_inspectio.Models.{Field, field_eq, ConflictStatus, open_conflict, resolved}

-- `WHERE id=$1`
abbrev pub has_id : ℕ → Inspection → Bool
has_id id r = r.id == id

-- `WHERE inspection_id=$1 AND field=$2`
abbrev pub of_field : ℕ → Field → FieldRev → Bool
of_field id field r = r.inspection_id == id && field_eq r.field field

abbrev pub is_open : ConflictStatus → Bool
is_open open_conflict = Bool.true
is_open resolved = Bool.false

-- `WHERE inspection_id=$1 AND field=$2 AND status='open'`
abbrev pub open_on : ℕ → Field → Conflict → Bool
open_on id field c = c.inspection_id == id && (field_eq c.field field && is_open c.status)

abbrev pub inspection : Db → ℕ → Option Inspection
inspection db id = first (has_id id) db.inspections

abbrev pub field_rev : Db → ℕ → Field → Option FieldRev
field_rev db id field = first (of_field id field) db.field_revs

abbrev pub open_conflict_on : Db → ℕ → Field → Option Conflict
open_conflict_on db id field = first (open_on id field) db.conflicts
