-- ===== src/Examples/Images.antt =====
-- An upload to the sample shop, the event that tells of it, and the task.
use fair_drop.Common.{
  ℕ, ◌≡◌, ap, ◌&&◌, suc, true, false, ◌⊎◌, refl, sym, some, [], ◌∷◌, All, ◌==◌, if◌then◌else◌,
}
use fair_drop.Common.Table.{get}
use fair_drop.Models.{ProductImage, ImageStatus}
use fair_drop.Database.{Session}
use fair_drop.Media.{
  S3Record, Storage, handle_minio_webhook, sanitize, sanitize_and_activate_image_task,
}
use fair_drop.Media.Webhook.{IsDue, handle_minio_webhook-IsDue}
use fair_drop.Media.Sanitized.{
  IsSanitized, IsRewritten, sanitize_and_activate_image_task-IsSanitized,
}
use fair_drop.Examples.Sample.{shop}

abbrev photo : ProductImage
photo = record {
  product_id = 10;
  file_path = "products/10/80-lamp.jpg";
  status = ImageStatus.pending;
}

abbrev shop_with_photo : Session
shop_with_photo = record shop { images = (80, photo) ∷ [] }

abbrev created : S3Record
created = record { event_name = "s3:ObjectCreated:Post"; key = "products/10/80-lamp.jpg" }

handle_minio_webhook-IsDue_example :
    All
      (IsDue shop_with_photo)
      (handle_minio_webhook (λ key. key) true (created ∷ []) shop_with_photo).0
unfolding get
handle_minio_webhook-IsDue_example =
    handle_minio_webhook-IsDue (λ key. key) true (created ∷ []) shop_with_photo (refl, tt)

-- A storage of one object, whose images are numbers; sanitizing adds one.
abbrev one_object : Storage
one_object = record {
  Objects = ℕ;
  Image = ℕ;
  get_object = λ key objects. some objects;
  put_object = λ key image objects. (image, true);
  process = λ image. some (suc image);
  get_object-put_object = λ key image objects objects' done. ap (λ x. some x.0) (sym done);
}

-- The image is put, and its activation fails.
sanitize_and_activate_image_task-IsSanitized_example :
    let (objects', ended) =
      sanitize_and_activate_image_task one_object false true 80 "products/10/80-lamp.jpg" 7
        shop_with_photo in
    (s' : Session) × (status : ImageStatus) × (ended ≡ some s')
    × ((j : ℕ)
        → get j s'.images ≡ (
            if 80 == j
            then some (record photo { status = status })
            else get j shop_with_photo.images))
    × (((status ≡ ImageStatus.active) × IsSanitized one_object "products/10/80-lamp.jpg" 7 objects')
        ⊎ ((status ≡ ImageStatus.failed)
            × ((sanitize one_object "products/10/80-lamp.jpg" 7).1 && false ≡ false)
            × IsRewritten one_object "products/10/80-lamp.jpg" 7 objects'))
unfolding get
sanitize_and_activate_image_task-IsSanitized_example =
    sanitize_and_activate_image_task-IsSanitized one_object false true 80 "products/10/80-lamp.jpg"
      7 shop_with_photo photo refl refl
