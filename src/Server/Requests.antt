-- ===== src/Server/Requests.antt =====
-- Any requests to a server, one after the other, and with any answers of the database and of the object
-- store: no request takes away what the seed has inserted.
use mathlib.Core.Path.{subst}
use cc_005_offline_inspectio.Base.{◌≡◌, refl}
use cc_005_offline_inspectio.Models.Outside.{Outside}
use cc_005_offline_inspectio.Db.{Db}
use cc_005_offline_inspectio.Tx.{World}
use cc_005_offline_inspectio.Auth.{Claims}
use cc_005_offline_inspectio.Seed.Adds.{Grows, Grows-IsPreorder}
use cc_005_offline_inspectio.Seed.Kept.{apply_op-Grows, unmoved-Grows}
use cc_005_offline_inspectio.Store.{Clients}
use cc_005_offline_inspectio.Store.Calls.{S3}
use cc_005_offline_inspectio.Server.Services.{Services, Request}
use cc_005_offline_inspectio.Server.Middleware.{serve}
use cc_005_offline_inspectio.Server.Walk.{Serves}
use cc_005_offline_inspectio.Server.Served.{serve-R}

-- the tables after some requests to a server, whose object store answers each of them as it does
pub data Requests (s : Services) (a : Db) : Db → Type 0 where
  here : Requests s a a
  request :
      {b c : Db}
      → Requests s a b
      → (s3 : Clients S3) (req : Request) (w : World) → w.db ≡ b
      → (serve (record s { s3 = s3 }) req w).1.db ≡ c
      → Requests s a c

Grows-Serves : (o : Outside) (c : Claims) → Serves Grows o c.user_id
Grows-Serves o c = record {
  preorder = Grows-IsPreorder;
  attachments = λ db l. unmoved-Grows db _ refl refl refl;
  upload_parts = λ db l. unmoved-Grows db _ refl refl refl;
  delivery = apply_op-Grows o c.user_id;
}

pub serve-Grows : (s : Services) (req : Request) (w : World) → Grows w.db (serve s req w).1.db
serve-Grows s req w = serve-R Grows-IsPreorder s req w (λ c e. Grows-Serves s.outside c)

pub Requests-Grows : (s : Services) (a : Db) {b : Db} → Requests s a b → Grows a b
Requests-Grows s a here = Grows-IsPreorder.self a
Requests-Grows s a (request {b} {c} l s3 req w e f) =
    Grows-IsPreorder.through a b c (Requests-Grows s a l)
      (subst (λ x. Grows x c) e (subst (Grows w.db) f (serve-Grows (record s { s3 = s3 }) req w)))
