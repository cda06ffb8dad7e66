-- ===== src/Tests/Serving.antt =====
-- The theorems on the whole server, at a server of one token.
use Prim.Native.String
use cc_005_offline_inspectio.Base.{
  ◌==◌, if◌then◌else◌, String, false, none, some, [], ◌∷◌, ◌≡◌, refl, sym, ap, ◌∙◌, arith,
}
use cc_005_offline_inspectio.Base.Rows.{first}
use cc_005_offline_inspectio.Db.{Inspection, inspection}
use cc_005_offline_inspectio.Tx.{ok, err, World}
use cc_005_offline_inspectio.Auth.{Claims, parse, parsed, strip}
use cc_005_offline_inspectio.Models.{completed}
use cc_005_offline_inspectio.Uploads.Fetch.{Answer, Link, download_attachment}
use cc_005_offline_inspectio.Uploads.Fetch.Expired.{
  RefusesNoTime, IsRefusal, download_attachment-IsRefusal,
}
use cc_005_offline_inspectio.Store.Calls.{presign_get}
use cc_005_offline_inspectio.Inspections.Access.{IsUntouched}
use cc_005_offline_inspectio.Store.{Clients}
use cc_005_offline_inspectio.Store.Calls.{S3}
use cc_005_offline_inspectio.Server.Services.{Services, Request}
use cc_005_offline_inspectio.Server.Routes.{
  Endpoint, sync, found, match, routes, pick, fit, takes_method,
}
use cc_005_offline_inspectio.Server.Middleware.{serve}
use cc_005_offline_inspectio.Server.Served.{caller}
use cc_005_offline_inspectio.Server.Isolation.{IsForeign, serve-IsUntouched}
use cc_005_offline_inspectio.Server.Denied.{IsRefused, serve-IsRefused}
use cc_005_offline_inspectio.Tests.Setting.{alice, bob, outside, row, world, db, remove, photo}
use cc_005_offline_inspectio.Tests.Access.{jwt, manager, sample, is_sample, matches}

abbrev pub s3 : S3
s3 = record {
  list_buckets = ok tt;
  new_multipart_upload = λ bucket key ct. ok "u";
  put_object_part = λ bucket key upload n body size. ok (record { part_number = n; etag = "e" });
  list_object_parts = λ bucket key upload marker max.
      ok (record { parts = []; truncated = false; next_marker = 0 });
  complete_multipart_upload = λ bucket key upload parts. ok tt;
  abort_multipart_upload = λ bucket key upload. ok tt;
  presigned_get_object = λ bucket key seconds.
      if seconds == 0 then err "expires cannot be lesser than 1 second." else ok key;
  get_object = λ bucket key. ok [];
  stat = λ bucket key. ok 0;
}

abbrev pub both_clients : Clients S3
both_clients = record { client = s3; core = s3 }

abbrev pub services : Services
services = record {
  outside = outside;
  jwt = jwt;
  manager = manager;
  matches = matches;
  chunk_size = 8;
  s3 = both_clients;
  bucket = "inspection";
  decode_login = λ body. none;
  decode_sync = λ body. some (remove "op-1" ∷ []);
  decode_resolution = λ body. none;
  decode_upload = λ body. none;
  atoi = λ t. some 1;
  format_int = λ n. "0";
  uuid_text = λ n. "op-1";
  quote = λ t. t;
  bad_uuid = λ t. "invalid input syntax for type uuid";
  object_key = λ inspection id. inspection;
}

-- a request to remove the inspection 10
abbrev pub removal : String → Request
removal authorization = record {
  method = "POST";
  path = "api" ∷ "sync" ∷ [];
  authorization = authorization;
  body = ok [];
}

-- the inspection 10, as bob's
abbrev of_bob : Inspection
of_bob = record row { owner_id = bob }

abbrev pub shared : World
shared = record world { db = record db { inspections = of_bob ∷ [] } }

of_bob_there : inspection shared.db 10 ≡ some of_bob
unfolding first
of_bob_there = refl

-- alice's token
called : caller services (removal (String.◌++◌ "Bearer " "t")) 5 ≡ some sample
unfolding parse parsed strip is_sample
called = refl

alice-IsForeign :
    IsForeign (caller services (removal (String.◌++◌ "Bearer " "t")) shared.clock) of_bob
alice-IsForeign c e b =
    let some_c : some sample ≡ some c = sym called ∙ e in
    let same : sample ≡ c = cc some_c in
    let id : alice ≡ c.user_id = ap (λ (x : Claims). x.user_id) same in omega (arith, id, b)

serve-IsUntouched_example :
    IsUntouched 10 of_bob shared.db
      (serve services (removal (String.◌++◌ "Bearer " "t")) shared).1.db
serve-IsUntouched_example =
    serve-IsUntouched services (removal (String.◌++◌ "Bearer " "t")) shared 10 of_bob of_bob_there
      alice-IsForeign

sync_route : match "POST" ("api" ∷ "sync" ∷ []) ≡ found (Endpoint.auth sync) []
unfolding match routes pick fit takes_method
sync_route = refl

nobody : caller services (removal "") shared.clock ≡ none
unfolding strip
nobody = refl

serve-IsRefused_example :
    IsRefused (serve services (removal "") shared).0
    × ((serve services (removal "") shared).1.db ≡ shared.db)
serve-IsRefused_example =
    serve-IsRefused services (removal "") shared sync [] refl sync_route nobody

refuses_no_time : RefusesNoTime s3
refuses_no_time = record { refuses = λ bucket key. (_, refl) }

-- the owner asks for a link to a photo that is completed
abbrev shot : World
shot = record world {
  db = record db { attachments = record photo { status = completed } ∷ []; inspections = row ∷ [] };
}

download_attachment-IsRefusal_example :
    (a : Answer Link) × ((download_attachment
        (presign_get both_clients "inspection")
        alice
        70
        shot).0
      ≡ ok a)
    × IsRefusal a
download_attachment-IsRefusal_example =
    download_attachment-IsRefusal both_clients "inspection" refuses_no_time alice 70 shot
