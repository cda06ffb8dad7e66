-- ===== src/Seed.antt =====
-- `Seed` of backend/internal/db/db.go, which runs on every boot. Each statement runs on its own.
pub mod Adds
pub mod Seeded
pub mod Quiet
pub mod Start
pub mod Kept
use cc_005_offline_inspectio.Base.{
  ℕ, String, Bool, true, false, not, Option, some, List, [], ◌∷◌, str_eq, ◌==◌, if◌then◌else◌,
}
use cc_005_offline_inspectio.Base.Rows.{exists, insert}
use cc_005_offline_inspectio.Json.{
  Json, Items, Members, obj, arr, str, bool, nil, item, end, member,
}
use cc_005_offline_inspectio.Models.{
  Field, title, status, findings, notes, checked_items, photo_caption, other,
}
use cc_005_offline_inspectio.Models.Outside.{Outside}
use cc_005_offline_inspectio.Db.{Db, User, Inspection, FieldRev, has_id, of_field}
use cc_005_offline_inspectio.Tx.{
  Result, ok, err, Tx, Statement, with_json, pure, throw, statement, now, ◌>>=◌, ◌>>◌,
}
use cc_005_offline_inspectio.Sync.Statements.{to_jsonb, insert_inspection, insert_rev}

pub record SeedUser : Type 0 where
  pub id : ℕ
  pub username : String
  pub password : String
  pub display : String

pub record Sample : Type 0 where
  pub id : ℕ
  pub owner : ℕ
  pub title : String
  pub findings : String
  pub notes : String
  pub items : Items

abbrev alice : SeedUser
alice = record {
  id = 0x11111111111111111111111111111111;
  username = "alice";
  password = "demo1234";
  display = "Alice Inspector";
}

abbrev bob : SeedUser
bob = record {
  id = 0x22222222222222222222222222222222;
  username = "bob";
  password = "demo1234";
  display = "Bob Inspector";
}

abbrev pub users : List SeedUser
users = alice ∷ bob ∷ []

-- an object as json.Marshal writes it, with its keys in order
abbrev checked : String → String → Bool → String → Json
checked id label is_ok comment = obj (
    member "comment" (str comment)
      (member "id" (str id) (member "label" (str label) (member "ok" (bool is_ok) end))))

abbrev pub samples : List Sample
samples =
    record {
      id = 0xa1111111000000000000000000000001;
      owner = alice.id;
      title = "锅炉车间日常巡检";
      findings = "";
      notes = "离线演示：可直接修改，断网后刷新页面再同步";
      items =
          item (checked "i1" "压力表读数正常" true "") (
            item (checked "i2" "阀门无泄漏" true "")
              (item (checked "i3" "安全阀校验有效" false "待确认标签日期") nil));
    }
    ∷ record {
      id = 0xa1111111000000000000000000000002;
      owner = alice.id;
      title = "配电室周检";
      findings = "";
      notes = "";
      items = item (checked "j1" "开关柜温度" false "") (item (checked "j2" "接地电阻" true "") nil);
    }
    ∷ record {
      id = 0xa2222222000000000000000000000001;
      owner = bob.id;
      title = "仓库消防巡检（Bob）";
      findings = "";
      notes = "用于验证越权同步：alice 无法同步此任务";
      items = item (checked "k1" "灭火器压力" true "") nil;
    }
    ∷ []

-- INSERT … ON CONFLICT … DO NOTHING, with whether a row conflicts
abbrev pub insert_unless : (Db → Bool) → Statement (Unit {0}) → Statement (Unit {0})
insert_unless there s db = if there db then ok (tt, db) else s db

-- the unique columns that the statements name
abbrev pub user_there : String → Db → Bool
user_there name db = exists (λ u. str_eq u.username name) db.users

abbrev pub inspection_there : ℕ → Db → Bool
inspection_there id db = exists (has_id id) db.inspections

abbrev pub rev_there : ℕ → Field → Db → Bool
rev_there id f db = exists (of_field id f) db.field_revs

-- INSERT INTO users, without the conflict on the name
abbrev pub insert_user : User → Statement (Unit {0})
insert_user u db =
    if exists (λ v. v.id == u.id) db.users
    then err "duplicate key value violates unique constraint users_pkey"
    else ok (tt, record db { users = insert u db.users })

abbrev pub new_user : SeedUser → String → User
new_user u hash = record {
  id = u.id;
  username = u.username;
  password_hash = hash;
  display_name = u.display;
}

unfoldable pub insert_hashed : SeedUser → Result String → Tx (Unit {0})
insert_hashed u (err e) = throw e
insert_hashed u (ok hash) =
    statement (insert_unless (user_there u.username) (insert_user (new_user u hash)))

-- `hash` is bcrypt.GenerateFromPassword, which takes a new salt for each user
unfoldable pub seed_users : (ℕ → String → Result String) → List SeedUser → Tx (Unit {0})
seed_users hash [] = pure tt
seed_users hash (u ∷ us) = insert_hashed u (hash u.id u.password) >> seed_users hash us

abbrev pub sample_row : Sample → ℕ → Json → Inspection
sample_row s at items = record {
  id = s.id;
  owner_id = s.owner;
  title = s.title;
  status = "draft";
  findings = s.findings;
  notes = s.notes;
  checked_items = items;
  photo_caption = "";
  is_deleted = false;
  rev = 1;
  updated_at = at;
}

-- the map of the fields, which has the six keys
abbrev value_of : Sample → Field → Json
value_of s title = str s.title
value_of s findings = str s.findings
value_of s notes = str s.notes
value_of s checked_items = arr s.items
value_of s photo_caption = str ""
value_of s status = str "draft"
value_of s (other _) = Json.null

module _ (o : Outside) where
  unfoldable pub seed_inspection : Sample → Tx (Unit {0})
  seed_inspection s = do
    at ← now
    statement (
        with_json (to_jsonb o (some (arr s.items)))
          (λ j. insert_unless (inspection_there s.id) (insert_inspection (sample_row s at j))))

  abbrev pub new_rev : Sample → Field → ℕ → Json → FieldRev
  new_rev s f at j = record {
    inspection_id = s.id;
    field = f;
    value = j;
    op_id = 0;
    updated_at = at;
  }

  unfoldable pub seed_rev : Sample → Field → Tx (Unit {0})
  seed_rev s f = do
    at ← now
    statement (
        with_json (to_jsonb o (some (value_of s f)))
          (λ j. insert_unless (rev_there s.id f) (insert_rev (new_rev s f at j))))

  -- the keys in the order in which `range` visits them for a sample
  unfoldable pub seed_revs : Sample → List Field → Tx (Unit {0})
  seed_revs s [] = pure tt
  seed_revs s (f ∷ fs) = seed_rev s f >> seed_revs s fs

  unfoldable pub seed_samples : (ℕ → List Field) → List Sample → Tx (Unit {0})
  seed_samples order [] = pure tt
  seed_samples order (s ∷ ss) =
      (seed_inspection s >> seed_revs s (order s.id)) >> seed_samples order ss

  unfoldable pub seed : (ℕ → String → Result String) → (ℕ → List Field) → Tx (Unit {0})
  seed hash order = seed_users hash users >> seed_samples order samples
