-- ===== src/Tests/Uploading.antt =====
-- The theorems on uploads at a photo of one part.
use cc_005_offline_inspectio.Base.{ℕ, String, some, List, [], ◌∷◌, true, false, ◌≡◌, refl, arith}
use cc_005_offline_inspectio.Base.Rows.{first, select, exists, order_by, update}
use cc_005_offline_inspectio.Db.{UploadPart}
use cc_005_offline_inspectio.Models.{completed}
use cc_005_offline_inspectio.Tx.{
  fine, cut, query_rows, Result, ok, World, attempt, pure, query, statement, ◌>>=◌,
}
use cc_005_offline_inspectio.Tx.Inversion.{Returns}
use cc_005_offline_inspectio.Sync.Replay.{calm}
use cc_005_offline_inspectio.Uploads.{
  access_of, authorize_upload, put_part, put_authorized, replay_part, store_part, record_part,
  part_recorded, insert_part, limited, received, finished, complete_upload, complete_authorized,
  complete_parts, complete_without_gap, complete_stored, completion, first_gap, set_completed,
  parts_of, upload_of, finished_before,
}
use cc_005_offline_inspectio.Uploads.Completion.{
  IsCompletion, complete_upload-whole, numbers, count_from,
}
use cc_005_offline_inspectio.Uploads.Completes.{complete_upload-completes}
use cc_005_offline_inspectio.Uploads.Parts.{put_part-repeated}
use cc_005_offline_inspectio.Tests.Setting.{alice, busy, photo}

abbrev etag_of : String → ℕ → List ℕ → Result String
etag_of key n body = ok "e"

abbrev other_etag_of : String → ℕ → List ℕ → Result String
other_etag_of key n body = ok "f"

abbrev accepts : String → List UploadPart → Result (Unit {0})
accepts key parts = ok tt

abbrev pub sent : World
sent = (put_part 8 etag_of alice "u" (some 1) (ok (7 ∷ [])) busy).1

first_part :
    Returns (put_part 8 etag_of alice "u" (some 1) (ok (7 ∷ []))) busy (received 1 "e" false) sent
unfolding put_part authorize_upload access_of put_authorized replay_part store_part record_part
    part_recorded insert_part limited attempt pure query statement first exists ◌>>=◌
first_part = (refl, refl)

put_part-repeated_example :
    put_part 8 other_etag_of alice "u" (some 1) (ok (9 ∷ 9 ∷ [])) (calm sent)
    ≡ (ok (received 1 "e" true), calm sent)
put_part-repeated_example =
    put_part-repeated 8 etag_of other_etag_of alice "u" 1 1 (ok (7 ∷ [])) (ok (9 ∷ 9 ∷ [])) "e"
      false busy sent first_part

abbrev pub uploaded : World
uploaded = (complete_upload accepts alice "u" sent).1

one_part : Returns (complete_upload accepts alice "u") sent (finished 1) uploaded
unfolding put_part authorize_upload access_of put_authorized replay_part store_part record_part
    part_recorded insert_part limited attempt pure query statement first exists select order_by
    update complete_upload complete_authorized complete_parts complete_without_gap complete_stored
    completion first_gap set_completed ◌>>=◌
one_part = (refl, refl)

complete_upload-whole_example : IsCompletion accepts "u" 1 sent
complete_upload-whole_example = complete_upload-whole accepts alice "u" 1 sent uploaded one_part

-- the photo with both of its parts, of which the second came first
abbrev part : ℕ → UploadPart
part n = record { upload_id = "u"; part_number = n; etag = "e" }

abbrev complete : World
complete = record busy { db = record busy.db { upload_parts = part 2 ∷ part 1 ∷ [] } }

photo_found : upload_of "u" complete.db ≡ some (photo, alice)
unfolding first
photo_found = refl

both_parts : numbers (parts_of "u" complete.db) ≡ count_from 1 2
unfolding select order_by
both_parts = refl

complete_upload-completes_example :
    (v : World) × (complete_upload accepts alice "u" (calm complete) ≡ (ok (finished 2), v))
    × (upload_of "u" v.db ≡ some (record photo { status = completed }, alice))
    × ((other : String → List UploadPart → Result (Unit {0}))
        → complete_upload other alice "u" v ≡ (ok finished_before, v))
complete_upload-completes_example =
    complete_upload-completes accepts alice "u" photo 2 complete photo_found refl (omega arith)
      both_parts refl

-- the parts 1, 2 and 4, of which two rows arrive: the upload is completed without the rest
abbrev with_gap : World
with_gap = record busy {
  db = record busy.db { upload_parts = part 1 ∷ part 2 ∷ part 4 ∷ [] };
  outcomes = fine ∷ cut 2 "timeout" ∷ [];
}

completed_in_part : (complete_upload accepts alice "u" with_gap).0 ≡ ok (finished 2)
unfolding authorize_upload access_of attempt pure query query_rows statement first select order_by
    update complete_upload complete_authorized complete_parts complete_without_gap complete_stored
    completion first_gap set_completed ◌>>=◌
completed_in_part = refl
