-- ===== src/Media/Webhook.antt =====
-- Which jobs the webhook enqueues.
use fair_drop.Common.{
  ◌≡◌, refl, inl, inr, Bool, true, String, Option, none, some, List, [], ◌∷◌, arith, All,
  str_eq_iff,
}
use fair_drop.Common.Table.{get, select, IsKeyed}
use fair_drop.Common.Table.Select.{select_sound}
use fair_drop.Exceptions.{Result, ok, err, Result-cases, scalar_one_or_none, only_row}
use fair_drop.Models.{ProductImage, ImageStatus}
use fair_drop.Database.{Session}
use fair_drop.Media.{
  S3Record, Job, has_path, is_pending_image, enqueued, handle_record, handle_minio_webhook,
}

-- A job for an image that waits, under its own path.
pub record IsDue (s : Session) (job : Job) : Type 0 where
  pub image : ProductImage
  pub found : get job.image_id s.images ≡ some image
  pub path : image.file_path ≡ job.object_key
  pub waiting : image.status ≡ ImageStatus.pending

is_pending_image-eq :
    (status : ImageStatus) → is_pending_image status ≡ true → status ≡ ImageStatus.pending
is_pending_image-eq status h = ground arith

enqueued-IsDue :
    (s : Session) (answer : Result (Option Job)) (rest : List Job × Result (Unit {0}))
    → ((job : Job) → answer ≡ ok (some job) → IsDue s job)
    → All (IsDue s) rest.0
    → All (IsDue s) (enqueued answer rest).0
enqueued-IsDue s (err e) rest due h = tt
enqueued-IsDue s (ok none) rest due h = h
enqueued-IsDue s (ok (some job)) rest due h = (due job refl, h)

module _ (unquote : String → String) (has_pool : Bool) (s : Session)
    (keyed : IsKeyed s.images) where
  handle_record-IsDue :
      (r : S3Record) (job : Job) → handle_record unquote has_pool r s ≡ ok (some job) → IsDue s job
  unfolding handle_record
  handle_record-IsDue r job h =
      elim (Result-cases (scalar_one_or_none (select (has_path (unquote r.key)) s.images))) [
        | inr (e, failed) ↦ absurd (ground arith)
        | inl (none, found) ↦ absurd (ground arith)
        | inl (some (i, image), found) ↦
            let rows = only_row (select (has_path (unquote r.key)) s.images) (i, image) found in
            let row = (rw rows at (select_sound (has_path (unquote r.key)) s.images keyed)).0 in
            let made : job ≡ record { image_id = i; object_key = unquote r.key } = ground arith in
            record {
              image = image;
              found = rw made row.0;
              path = rw made ((str_eq_iff image.file_path (unquote r.key)).0 row.1);
              waiting = is_pending_image-eq image.status (ground arith);
            }
      ]

  go : (records : List S3Record) → All (IsDue s) (handle_minio_webhook unquote has_pool records s).0
  unfolding handle_minio_webhook
  go [] = tt
  go (r ∷ records) =
      enqueued-IsDue s (handle_record unquote has_pool r s)
        (handle_minio_webhook unquote has_pool records s) (handle_record-IsDue r) (go records)

-- Where the keys of the images are distinct, each job that the webhook enqueues is for an image that
-- is pending and has the job's object key as its path, whatever the records are.
pub handle_minio_webhook-IsDue :
    (unquote : String → String) (has_pool : Bool) (records : List S3Record) (s : Session)
    → IsKeyed s.images
    → All (IsDue s) (handle_minio_webhook unquote has_pool records s).0
handle_minio_webhook-IsDue unquote has_pool records s keyed = go unquote has_pool s keyed records
