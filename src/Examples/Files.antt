-- ===== src/Examples/Files.antt =====
-- Files of the sample shop.
use fair_drop.Common.{
  ℕ, arith, ◌==◌, if◌then◌else◌, contains, ◌≡◌, ◌≢◌, refl, true, String, Option, none, some, [],
  ◌∷◌,
}
use fair_drop.Common.Table.{get, select}
use Prim.Native.String
use fair_drop.Exceptions.{Result, ok, err}
use fair_drop.Json.{Json, str}
use fair_drop.Models.{is_staff, ImageStatus, ProductImage}
use fair_drop.Database.{Session, is_some}
use fair_drop.AuditLog.Changes.{IsLogged}
use fair_drop.Media.Paths.{object_key, bucket_candidates, get_secure_file_path, view_private_file}
use fair_drop.Media.Paths.Normal.{IsStripped, object_key_total}
use fair_drop.Media.Paths.Views.{view_private_file-IsLogged}
use fair_drop.Users.Access.{get_current_user}
use fair_drop.Inventory.Internal.{ensure_product_exists}
use fair_drop.Media.{S3Record, generate_upload_url}
use fair_drop.Admin.Formatters.{markup, docs_link_formatter}
use fair_drop.Admin.Formatters.Verbatim.{docs_link_formatter-verbatim}
use fair_drop.Routes.Uploads.{
  ImageUploadRequest, ImageUploadResponse, PresignedPost, upload_path, create_upload_url,
}
use fair_drop.Examples.Access.{plain_tokens}
use fair_drop.Examples.Sample.{settings, shop, reviewer}

object_key_total_example :
    (key' : String) × (object_key settings "http://minio:9000/fairdrop-media/products/a.jpg"
      ≡ some key')
    × IsStripped (bucket_candidates settings) "http://minio:9000/fairdrop-media/products/a.jpg" key'
object_key_total_example =
    object_key_total settings "http://minio:9000/fairdrop-media/products/a.jpg"

abbrev pub presign : String → String → ℕ → String
presign bucket key seconds = String.◌++◌ "http://minio:9000/" key

abbrev pub show : Json → String
show value = "value"

abbrev shop_with_image : Session
shop_with_image = record shop {
  images =
      (
        50,
        record { product_id = 10; file_path = "products/10/50.jpg"; status = ImageStatus.active },
      )
      ∷ [];
}

abbrev target_type : String
target_type = "product_image"

abbrev view : Result (Option String × Session)
view = view_private_file show presign settings target_type 50 none reviewer shop_with_image

abbrev url_of : Result (Option String × Session) → Option String
url_of (err e) = none
url_of (ok (url, s)) = url

view_answered : view ≡ ok (url_of view, shop_with_image)
unfolding view_private_file get_secure_file_path get
view_answered = refl

view_private_file-IsLogged_example :
    (is_staff reviewer.role ≡ true)
    × (is_some (url_of view) ≡ true)
    × (target_type ≡ "verification_doc"
        → IsLogged reviewer.id 50 "verification_request" "pii_access" shop_with_image
            shop_with_image)
    × (target_type ≢ "verification_doc" → shop_with_image ≡ shop_with_image)
view_private_file-IsLogged_example =
    view_private_file-IsLogged show presign settings target_type 50 none reviewer shop_with_image
      shop_with_image (url_of view) view_answered

abbrev form : PresignedPost
form bucket key content_type least most seconds = ("http://minio:9000/", ("key", key) ∷ [])

abbrev photo_request : ImageUploadRequest
photo_request = record { filename = "lamp.jpg"; content_type = "image/jpeg" }

abbrev id_text : ℕ → String
id_text n = if n == 10 then "10" else "80"

abbrev uploaded : Result (ImageUploadResponse × Session)
uploaded =
    create_upload_url id_text form plain_tokens settings 9 "sbuyer@example.com" 80 10 photo_request
      shop

abbrev photo_answer : ImageUploadResponse
photo_answer = record {
  image_id = 80;
  url = "http://minio:9000/";
  fields = ("key", "products/10/80-lamp.jpg") ∷ [];
}

abbrev after_upload : Result (ImageUploadResponse × Session) → Session
after_upload (ok (answer, s)) = s
after_upload (err e) = shop

upload_answered : uploaded ≡ ok (photo_answer, after_upload uploaded)
unfolding create_upload_url upload_path get_current_user select get generate_upload_url
    ensure_product_exists
upload_answered = refl

no_images :
    (i : ℕ) (image : ProductImage)
    → get i shop.images ≡ some image
    → image.file_path ≢ upload_path id_text 10 80 "lamp.jpg"
unfolding get
no_images i image found = λ e. ground arith

abbrev created : S3Record
created = record { event_name = "s3:ObjectCreated:Post"; key = "products/10/80-lamp.jpg" }

abbrev scripted : String × Json
scripted = ("<script>alert(1)</script>", str "passport.pdf")

docs_link_formatter-verbatim_example :
    (text : String) × (docs_link_formatter "3" (some (scripted ∷ [])) ≡ markup text)
    × ((contains "<script>alert(1)</script>" text ≡ true) × Unit {0})
docs_link_formatter-verbatim_example = docs_link_formatter-verbatim "3" scripted []
