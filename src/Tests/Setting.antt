-- ===== src/Tests/Setting.antt =====
-- A database with two users, and operations of theirs on one inspection.
use cc_005_offline_inspectio.Base.{
  pos, ℕ, String, Option, none, some, [], ◌∷◌, str_eq, if◌then◌else◌, ◌+◌, false,
}
use cc_005_offline_inspectio.Json.{str, arr, nil}
use cc_005_offline_inspectio.Json.Equality.{RawMessage}
use cc_005_offline_inspectio.Models.{
  title, status, UploadState, Changes, OpType, upsert, delete, resolve_conflict, Op,
}
use cc_005_offline_inspectio.Models.Outside.{Outside, KeepsValues}
use cc_005_offline_inspectio.Db.{Db, User, Inspection, FieldRev, Attachment}
use cc_005_offline_inspectio.Tx.{World}

abbrev uuid_of : String → Option ℕ
uuid_of s =
    if str_eq s "inspection"
    then some 10
    else if str_eq s "op-1"
    then some 1
    else if str_eq s "op-2"
    then some 2
    else if str_eq s "op-3"
    then some 3
    else if str_eq s "op-4"
    then some 4
    else none

abbrev pub outside : Outside
outside = record {
  parse_float = λ s. some 0;
  parse_uuid = uuid_of;
  jsonb = λ j. some j;
  reread = λ r. some r;
  skipped_parameter = some "could not determine data type of parameter $2";
}

pub outside-KeepsValues : KeepsValues outside
outside-KeepsValues = record { keeps = λ j k e. cc e }

abbrev pub alice : ℕ
alice = 100

abbrev pub bob : ℕ
bob = 200

abbrev pub user : ℕ → String → User
user id name = record { id = id; username = name; password_hash = ""; display_name = name }

abbrev pub db : Db
db = record {
  users = user alice "alice" ∷ user bob "bob" ∷ [];
  inspections = [];
  field_revs = [];
  conflicts = [];
  processed_ops = [];
  attachments = [];
  upload_parts = [];
}

abbrev pub world : World
world = record { db = db; clock = 5; next_id = λ n. n + 1000; outcomes = [] }

abbrev pub text : String → RawMessage
text s = some (str s)

abbrev op_of : String → OpType → Changes → RawMessage → Op
op_of id kind changes v = record {
  op_id = id;
  kind = kind;
  inspection_id = "inspection";
  changes = changes;
  field = title;
  new_value = v;
  ts = 0;
}

abbrev pub retitle : String → String → String → Op
retitle id base v = op_of id upsert ((title, record { v = text v; base = text base }) ∷ []) none

abbrev pub remove : String → Op
remove id = op_of id delete [] none

abbrev pub resolve : String → String → Op
resolve id v = op_of id resolve_conflict [] (text v)

-- alice's inspection, with a photo that is not uploaded to the end
abbrev pub row : Inspection
row = record {
  id = 10;
  owner_id = alice;
  title = "A";
  status = "draft";
  findings = "";
  notes = "";
  checked_items = arr nil;
  photo_caption = "";
  is_deleted = false;
  rev = 1;
  updated_at = 5;
}

abbrev pub title_rev : FieldRev
title_rev = record { inspection_id = 10; field = title; value = str "A"; op_id = 1; updated_at = 5 }

abbrev pub photo : Attachment
photo = record {
  id = 70;
  inspection_id = 10;
  upload_id = "u";
  filename = "p.jpg";
  content_type = "image/jpeg";
  size = pos 9;
  object_key = "k";
  status = UploadState.uploading;
  created_by = alice;
  created_at = 5;
}

abbrev pub busy : World
busy = record world {
  db = record db { inspections = row ∷ []; field_revs = title_rev ∷ []; attachments = photo ∷ [] };
}

abbrev pub submit : String → Op
submit id =
    op_of id upsert ((status, record { v = text "submitted"; base = text "draft" }) ∷ []) none
