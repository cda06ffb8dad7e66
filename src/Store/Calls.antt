-- ===== src/Store/Calls.antt =====
-- The methods of backend/internal/store/store.go that pass a call on to the S3 client.
use cc_005_offline_inspectio.Base.{ℕ, String, Bool, true, false, Option, List}
use cc_005_offline_inspectio.Base.Rows.{length}
use cc_005_offline_inspectio.Db.{UploadPart}
use cc_005_offline_inspectio.Tx.{Result, ok, err}
use cc_005_offline_inspectio.Store.{Clients, Page, completed_parts}

-- minio.ObjectPart
pub record ObjectPart : Type 0 where
  pub part_number : ℕ
  pub etag : String

-- What the S3 client answers to its calls. Each names a bucket; an object that is got is what Stat says
-- of it, with the bytes that its reader gives, up to its end or an error.
pub record S3 : Type 0 where
  pub list_buckets : Result (Unit {0})
  -- a key and a content type
  pub new_multipart_upload : String → String → String → Result String
  -- a key, an upload, a part's number, its bytes and their length
  pub put_object_part : String → String → String → ℕ → List ℕ → ℕ → Result ObjectPart
  -- a key, an upload, a marker and how many parts at most
  pub list_object_parts : String → String → String → ℕ → ℕ → Result Page
  pub complete_multipart_upload : String → String → String → List UploadPart → Result (Unit {0})
  pub abort_multipart_upload : String → String → String → Result (Unit {0})
  -- a key, and how many seconds the link lasts
  pub presigned_get_object : String → String → ℕ → Result String
  pub get_object : String → String → Result (List ℕ)
  pub stat : String → String → Result ℕ

abbrev succeeded : Result (Unit {0}) → Bool
succeeded (ok _) = true
succeeded (err _) = false

abbrev etag_of : Result ObjectPart → Result String
etag_of (err e) = err e
etag_of (ok part) = ok part.etag

abbrev with_info : List ℕ → Result ℕ → Result (List ℕ × ℕ)
with_info body (err e) = err e
with_info body (ok size) = ok (body, size)

abbrev with_stat : Result (List ℕ) → Result ℕ → Result (List ℕ × ℕ)
with_stat (err e) stat = err e
with_stat (ok body) stat = with_info body stat

-- over the two clients of a store
module _ (c : Clients S3) (bucket : String) where
  unfoldable pub ping : Bool
  ping = succeeded c.client.list_buckets

  unfoldable pub begin_multipart : String → String → Result String
  begin_multipart object_key content_type =
      c.core.new_multipart_upload bucket object_key content_type

  unfoldable pub upload_part : String → String → ℕ → List ℕ → Result String
  upload_part upload_id object_key part_number bytes =
      etag_of (c.core.put_object_part bucket object_key upload_id part_number bytes (length bytes))

  -- the loop of `CompletedParts` on this much fuel
  unfoldable pub parts_completed : ℕ → String → String → Option (Result (List ℕ))
  parts_completed fuel upload_id object_key =
      completed_parts (λ marker. c.core.list_object_parts bucket object_key upload_id marker 1000)
        fuel

  unfoldable pub complete_multipart : String → String → List UploadPart → Result (Unit {0})
  complete_multipart upload_id object_key parts =
      c.core.complete_multipart_upload bucket object_key upload_id parts

  unfoldable pub abort_multipart : String → String → Result (Unit {0})
  abort_multipart upload_id object_key = c.core.abort_multipart_upload bucket object_key upload_id

  unfoldable pub presign_get : String → Result String
  presign_get object_key = c.client.presigned_get_object bucket object_key 0

  -- the object with its size; one whose Stat fails is closed
  unfoldable pub object : String → Result (List ℕ × ℕ)
  object object_key =
      with_stat (c.client.get_object bucket object_key) (c.client.stat bucket object_key)
