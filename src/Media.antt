-- ===== src/Media.antt =====
-- app/services/media: the upload of a product's image, the webhook of the object storage, and the
-- task that sanitizes the object and activates the image.
pub mod Webhook
pub mod Sanitized
pub mod Paths
use fair_drop.Common.{
  ℕ, ◌≡◌, ◌≢◌, Bool, true, false, not, ◌&&◌, String, Option, none, some, List, [], ◌∷◌, ◌++◌,
  str_eq, take_chars, if◌then◌else◌,
}
use fair_drop.Common.Table.{Table, get, put, select}
use fair_drop.Exceptions.{
  Error, Result, ok, err, integrity_error, ◌>>=◌, ◌>>◌, raise_if, scalar_one_or_none,
}
use fair_drop.Models.{ProductImage, ImageStatus}
use fair_drop.Database.{Session, is_some}
use fair_drop.Inventory.Internal.{ensure_product_exists}

-- `f'products/{product_id}/{image_id}-{req.filename}'` is the argument `file_path`.
unfoldable pub generate_upload_url : ℕ → ℕ → String → Session → Result (ℕ × Session)
generate_upload_url image_id product_id file_path s = do
  ensure_product_exists product_id s
  raise_if (is_some (get image_id s.images)) integrity_error
  ok (
    image_id,
    record s {
      images =
          s.images
          ++ (
            image_id,
            record { product_id = product_id; file_path = file_path; status = ImageStatus.pending },
          )
            ∷ [];
    },
  )

-- A record of the event, with its key as sent.
pub record S3Record : Type 0 where
  pub event_name : String
  pub key : String

-- What is enqueued for `sanitize_and_activate_image_task`.
pub record Job : Type 0 where
  pub image_id : ℕ
  pub object_key : String

abbrev pub has_path : String → ProductImage → Bool
has_path key image = str_eq image.file_path key

abbrev pub is_pending_image : ImageStatus → Bool
is_pending_image ImageStatus.pending = true
is_pending_image _ = false

-- `event_name.startswith('s3:ObjectCreated:')`
abbrev pub is_create : S3Record → Bool
is_create r = str_eq (take_chars 17 r.event_name) "s3:ObjectCreated:"

-- What the loop adds for one record; a record that raises ends it.
abbrev pub enqueued :
    Result (Option Job) → List Job × Result (Unit {0}) → List Job × Result (Unit {0})
enqueued (err e) rest = ([], err e)
enqueued (ok none) rest = rest
enqueued (ok (some job)) rest = (job ∷ rest.0, rest.1)

-- `urllib.parse.unquote` is a parameter; `has_pool` tells whether `arq_redis` is there.
module _ (unquote : String → String) (has_pool : Bool) where
  abbrev pub job_for : String → Option (ℕ × ProductImage) → Option Job
  job_for key none = none
  job_for key (some (i, image)) =
      if not (is_pending_image image.status)
      then none
      else (if has_pool then some (record { image_id = i; object_key = key }) else none)

  -- The loop's body: the job of a record, where there is one.
  unfoldable pub handle_record : S3Record → Session → Result (Option Job)
  handle_record r s = if not (is_create r) then ok none else (do
    found ← scalar_one_or_none (select (has_path (unquote r.key)) s.images)
    ok (job_for (unquote r.key) found))

  -- The jobs enqueued, which stay so where a later record raises. No row is written.
  unfoldable pub handle_minio_webhook : List S3Record → Session → List Job × Result (Unit {0})
  handle_minio_webhook [] s = ([], ok tt)
  handle_minio_webhook (r ∷ records) s =
      enqueued (handle_record r s) (handle_minio_webhook records s)

-- The object storage and the image library, parameters: `process` is `_process_image_sync`, none
-- where it raises. A put answers whether it went through, and then what has been put is read back;
-- what a put that raises leaves is open.
pub record Storage : Type 1 where
  pub Objects : Type 0
  pub Image : Type 0
  pub get_object : String → Objects → Option Image
  pub put_object : String → Image → Objects → Objects × Bool
  pub process : Image → Option Image
  pub get_object-put_object :
      (key : String) (image : Image) (objects objects' : Objects)
      → put_object key image objects ≡ (objects', true)
      → get_object key objects' ≡ some image

-- `if image: image.status = …`
pub set_status : ℕ → ImageStatus → Session → Session
set_status image_id status s = elim (get image_id s.images) [
  | none ↦ s
  | some image ↦ record s { images = put image_id (record image { status = status }) s.images }
]

module _ (storage : Storage) where
  -- The objects after the steps on the storage, and whether none of them raised.
  abbrev pub put_sanitized :
      String → storage.Objects → Option storage.Image → storage.Objects × Bool
  put_sanitized key objects none = (objects, false)
  put_sanitized key objects (some image) = storage.put_object key image objects

  abbrev pub sanitized : Option storage.Image → Option storage.Image
  sanitized none = none
  sanitized (some image) = storage.process image

  pub sanitize : String → storage.Objects → storage.Objects × Bool
  sanitize key objects = put_sanitized key objects (sanitized (storage.get_object key objects))

  -- `activates` and `marks` tell whether the transactions of the two database blocks go through; the
  -- `except` is around the first, and an error of the second leaves the task, with nothing written.
  abbrev pub finish : Bool → Bool → ℕ → Session → Bool → Option Session
  finish activates marks image_id s stored =
      if stored && activates
      then some (set_status image_id ImageStatus.active s)
      else (if marks then some (set_status image_id ImageStatus.failed s) else none)

  pub sanitize_and_activate_image_task :
      Bool → Bool → ℕ → String → storage.Objects → Session → storage.Objects × Option Session
  sanitize_and_activate_image_task activates marks image_id object_key objects s =
      let (objects', stored) = sanitize object_key objects in
      (objects', finish activates marks image_id s stored)
