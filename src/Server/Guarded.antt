-- ===== src/Server/Guarded.antt =====
-- The walk through all handlers, up to the whole server.
use cc_005_offline_inspectio.Base.{ℕ, String, Option, none, some, List, ◌==◌, inl, inr, Bool-cases}
use cc_005_offline_inspectio.Models.{Op}
use cc_005_offline_inspectio.Db.{Db}
use cc_005_offline_inspectio.Tx.{Result, ok, err, World, Tx, pure, query, ◌>>=◌}
use cc_005_offline_inspectio.Tx.Respects.{
  IsPreorder, Respects, Respects-pure, Respects-query, Respects-new_uuid, Respects-bind,
}
use cc_005_offline_inspectio.Sync.Ledger as Ledger
use cc_005_offline_inspectio.Auth.{Claims}
use cc_005_offline_inspectio.Inspections as Inspections
use cc_005_offline_inspectio.Inspections.{Fetched, fetched, unfetched, Resolution}
use cc_005_offline_inspectio.Server.Routes.{
  Handled, me, list_inspections, get_inspection, sync, resolve_conflict, create_upload,
  upload_status, put_part, complete_upload, download_attachment, attachment_content, Params,
}
use cc_005_offline_inspectio.Server.Services.{Services, Body}
use cc_005_offline_inspectio.Server.Handlers.{handled, resolve_at, resolve, guarded}
use cc_005_offline_inspectio.Server.Reading.{
  me-Respects, list-Respects, detail_at-Respects, upload_status-Respects, attachment_at-Respects,
  download-Respects, content-Respects,
}
use cc_005_offline_inspectio.Server.Walk.{
  Serves, sync-R, put_part-Respects, complete_upload-Respects, create_upload-Respects,
}

-- an action, and its answer written out
Respects-answered :
    {A B : Type 0} {R : Db → Db → Type 0} (p : IsPreorder R) (m : Tx A) (f : A → B)
    → Respects R m
    → Respects R (m >>= λ a. pure (f a))
Respects-answered p m f h = Respects-bind p m _ h (λ a. Respects-pure p (f a))

module _ {R : Db → Db → Type 0} (s : Services) {user : ℕ} (k : Serves R s.outside user) where
  resolve_owned-R :
      (op : Op) (r : Result (Option ℕ)) (w : World)
      → R w.db (Inspections.resolve_owned s.outside user op r w).1.db
  unfolding Inspections.resolve_owned
  resolve_owned-R op (err e) w = k.preorder.self w.db
  resolve_owned-R op (ok none) w = k.preorder.self w.db
  resolve_owned-R op (ok (some owner)) w = elim (Bool-cases (owner == user)) [
    | inl e ↦ rw e (k.delivery op w)
    | inr e ↦ rw e (k.preorder.self w.db)
  ]

  asked-R :
      (op : Op) (x : Result (Option ℕ) × World) (a : Db)
      → R a x.1.db
      → R a (Inspections.resolve_owned s.outside user op x.0 x.1).1.db
  asked-R op (r, v) a h = k.preorder.through a v.db _ h (resolve_owned-R op r v)

  endpoint-R :
      (id : ℕ) (op_id : String) (req : Option Resolution) (w : World)
      → R w.db (Inspections.resolve_endpoint s.outside user id op_id req w).1.db
  unfolding Inspections.resolve_endpoint
  endpoint-R id op_id none w = k.preorder.self w.db
  endpoint-R id op_id (some req) w =
      let q = Inspections.conflict_owner id in
      let op = Inspections.resolve_op op_id req in
      asked-R op (query q w) w.db ((Respects-query k.preorder q).at w)

  resolve_at-Respects :
      (id : Option ℕ) (op : String) (req : Resolution) → Respects R (resolve_at s id user op req)
  unfolding resolve_at handled
  resolve_at-Respects none op req = Respects-pure k.preorder _
  resolve_at-Respects (some id) op req = record { at = endpoint-R id op (some req) }

  resolve-Respects : (id : Option ℕ) (req : Option Resolution) → Respects R (resolve s id user req)
  unfolding resolve
  resolve-Respects id none = Respects-pure k.preorder _
  resolve-Respects id (some req) =
      Respects-bind k.preorder _ _ (Respects-new_uuid k.preorder)
        (λ op. resolve_at-Respects id (s.uuid_text op) req)

  sync-Respects : (req : Option (List Op)) → Respects R (handled (Ledger.sync s.outside user req))
  unfolding handled
  sync-Respects req = record { at = sync-R k req }

-- What the statements of the uploads and the deliveries of a user respect, each handler behind `auth`
-- respects when it runs for the user.
pub guarded-Respects :
    {R : Db → Db → Type 0} (s : Services) (h : Handled) (ps : Params) (body : Body) (c : Claims)
    → Serves R s.outside c.user_id
    → Respects R (guarded s h ps body c)
unfolding guarded
guarded-Respects s me ps body c k = Respects-answered k.preorder _ _ (me-Respects k.preorder c)
guarded-Respects s list_inspections ps body c k =
    Respects-answered k.preorder _ _ (list-Respects k.preorder c.user_id)
guarded-Respects s get_inspection ps body c k =
    Respects-answered k.preorder _ _ (detail_at-Respects k.preorder _ _ c.user_id)
guarded-Respects s sync ps body c k = Respects-answered k.preorder _ _ (sync-Respects s k _)
guarded-Respects s resolve_conflict ps body c k =
    Respects-answered k.preorder _ _ (resolve-Respects s k _ _)
guarded-Respects s create_upload ps body c k =
    Respects-answered k.preorder _ _ (create_upload-Respects k _ _ _ _)
guarded-Respects s upload_status ps body c k =
    Respects-answered k.preorder _ _ (upload_status-Respects k.preorder _ c.user_id _)
guarded-Respects s put_part ps body c k =
    Respects-answered k.preorder _ _ (put_part-Respects k _ _ _ _ body)
guarded-Respects s complete_upload ps body c k =
    Respects-answered k.preorder _ _ (complete_upload-Respects k _ _)
guarded-Respects s download_attachment ps body c k =
    Respects-answered k.preorder _ _
      (attachment_at-Respects k.preorder _ _ _ (download-Respects k.preorder _ c.user_id))
guarded-Respects s attachment_content ps body c k =
    Respects-answered k.preorder _ _
      (attachment_at-Respects k.preorder _ _ _ (content-Respects k.preorder _ _ c.user_id))
