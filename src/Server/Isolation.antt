-- ===== src/Server/Isolation.antt =====
-- What a request may change, by the token that it bears.
use cc_005_offline_inspectio.Base.{ℕ, Option, none, some, ◌≡◌, ◌≢◌, refl, ◌∙◌}
use cc_005_offline_inspectio.Models.Outside.{Outside}
use cc_005_offline_inspectio.Db.{Db, Inspection, inspection}
use cc_005_offline_inspectio.Tx.{World}
use cc_005_offline_inspectio.Tx.Respects.{IsPreorder}
use cc_005_offline_inspectio.Auth.{Claims}
use cc_005_offline_inspectio.Sync.Isolation.{apply_op-isolated}
use cc_005_offline_inspectio.Inspections.Access.{IsUntouched}
use cc_005_offline_inspectio.Server.Services.{Services, Request}
use cc_005_offline_inspectio.Server.Middleware.{serve}
use cc_005_offline_inspectio.Server.Walk.{Serves}
use cc_005_offline_inspectio.Server.Served.{caller, serve-R}

-- the owner of a row is not whom these claims name, if there are any
abbrev pub IsForeign : Option Claims → Inspection → Type 0
IsForeign x r = (c : Claims) → x ≡ some c → r.owner_id ≢ c.user_id

-- the inspections of others stay
abbrev Isolates : Option Claims → Db → Db → Type 0
Isolates x a b =
    (j : ℕ) (r : Inspection) → inspection a j ≡ some r → IsForeign x r → IsUntouched j r a b

Isolates-IsPreorder : (x : Option Claims) → IsPreorder (Isolates x)
Isolates-IsPreorder x = record {
  self = λ a j r found foreign. (found, λ f. refl);
  through = λ a b c g h j r found foreign.
      let (row, revs) = g j r found foreign in
      let (last, others) = h j r row foreign in (last, λ f. others f ∙ revs f);
}

Isolates-Serves :
    (o : Outside) (x : Option Claims) (c : Claims) → x ≡ some c → Serves (Isolates x) o c.user_id
Isolates-Serves o x c e = record {
  preorder = Isolates-IsPreorder x;
  attachments = λ db l j r found foreign. (found, λ f. refl);
  upload_parts = λ db l j r found foreign. (found, λ f. refl);
  delivery = λ op w j r found foreign. apply_op-isolated o c.user_id op w j r found (foreign c e);
}

-- Whatever a request asks for, on whichever path, and however the database answers: an inspection keeps
-- its row and the lineage of its fields, unless the request bears a token that is accepted and names
-- the owner of the inspection.
pub serve-IsUntouched :
    (s : Services) (req : Request) (w : World) (j : ℕ) (r : Inspection)
    → inspection w.db j ≡ some r
    → IsForeign (caller s req w.clock) r
    → IsUntouched j r w.db (serve s req w).1.db
serve-IsUntouched s req w j r found foreign =
    serve-R (Isolates-IsPreorder (caller s req w.clock)) s req w
      (Isolates-Serves s.outside (caller s req w.clock)) j r found foreign

abbrev Unchanged : Db → Db → Type 0
Unchanged a b = b ≡ a

-- A request that bears no token that is accepted changes no table.
pub serve-Unchanged :
    (s : Services) (req : Request) (w : World)
    → caller s req w.clock ≡ none
    → (serve s req w).1.db ≡ w.db
serve-Unchanged s req w anonymous =
    serve-R {R = Unchanged} (record { self = λ a. refl; through = λ a b c g h. h ∙ g }) s req w
      (λ c e. cc (anonymous, e))
