-- ===== src/Routes/Uploads.antt =====
-- The routes of app/services/media/routes.py for uploads and private files, with the answer of `generate_upload_url` and the
-- schemas of app/services/media/schemas.py, and what the webhook makes of the upload. The presigned
-- form is a parameter: of the bucket, the key, the content type, the bounds of the size, and the
-- seconds.
use Prim.Native.String
use fair_drop.Common.{
  ℕ, ◌≡◌, ◌≢◌, refl, inl, inr, true, false, String, Option, some, List, [], ◌∷◌, ◌++◌, arith,
  str_eq, str_eq_iff, str_eq_refl, Bool-cases,
}
use fair_drop.Common.Table.{get, select, IsKeyed}
use fair_drop.Common.Table.Select.{select_empty, select-append}
use fair_drop.Exceptions.{Result, ok, ◌>>=◌, Result-cases}
use fair_drop.Config.{Settings}
use fair_drop.Models.{ProductImage, ImageStatus}
use fair_drop.Database.{Session}
use fair_drop.Users.Access.{Jwt, get_current_user, get_current_user_flexible}
use fair_drop.Inventory.Internal.{ensure_product_exists}
use fair_drop.Json.{Json}
use fair_drop.Media.Paths.{view_private_file}
use fair_drop.Media.{
  S3Record, has_path, is_create, generate_upload_url, handle_record, handle_minio_webhook,
}

pub record ImageUploadRequest : Type 0 where
  pub filename : String
  pub content_type : String

pub record ImageUploadResponse : Type 0 where
  pub image_id : ℕ
  pub url : String
  pub fields : List (String × String)

abbrev pub PresignedPost : Type 0
PresignedPost = String → String → String → ℕ → ℕ → ℕ → String × List (String × String)

-- `f'products/{product_id}/{image_id}-{req.filename}'`
unfoldable pub upload_path : (ℕ → String) → ℕ → ℕ → String → String
upload_path uuid_text product_id image_id filename = String.◌++◌ "products/" (
    String.◌++◌ (uuid_text product_id)
      (String.◌++◌ "/" (String.◌++◌ (uuid_text image_id) (String.◌++◌ "-" filename))))

abbrev pub upload_response : PresignedPost → Settings → ℕ → String → String → ImageUploadResponse
upload_response presigned_post settings image_id file_path content_type =
    let (url, fields) =
      presigned_post settings.minio_bucket_name file_path content_type settings.min_file_size_bytes
        settings.max_file_size_bytes settings.presigned_url_expire_seconds in
    record { image_id = image_id; url = url; fields = fields }

-- Any user may attach an image to any product.
unfoldable pub create_upload_url :
    (ℕ → String)
    → PresignedPost
    → Jwt
    → Settings
    → ℕ
    → String
    → ℕ
    → ℕ
    → ImageUploadRequest
    → Session
    → Result (ImageUploadResponse × Session)
create_upload_url uuid_text presigned_post jwt settings now token image_id product_id req s = do
  current_user ← get_current_user jwt settings now token s
  let file_path = upload_path uuid_text product_id image_id req.filename
  made ← generate_upload_url image_id product_id file_path s
  ok (upload_response presigned_post settings image_id file_path req.content_type, made.1)

-- The route of private files, for a token or a browser session.
unfoldable pub view_private_file_route :
    Jwt
    → (Json → String)
    → (String → String → ℕ → String)
    → Settings
    → ℕ
    → Option String
    → Option ℕ
    → String
    → ℕ
    → Option String
    → Session
    → Result (Option String × Session)
view_private_file_route jwt show presign settings now token session_token target_type target_id
      doc_key s =
    do
      current_user ← get_current_user_flexible jwt settings now token session_token s
      view_private_file show presign settings target_type target_id doc_key current_user s

-- The image that waits for its object is the only one with the path.
webhook_finds :
    (unquote : String → String) (r : S3Record) (image_id product_id : ℕ) (s s' : Session)
    (image : ProductImage)
    → is_create r ≡ true
    → image
      ≡ record { product_id = product_id; file_path = unquote r.key; status = ImageStatus.pending }
    → select (has_path (unquote r.key)) s.images ≡ []
    → s' ≡ record s { images = s.images ++ (image_id, image) ∷ [] }
    → handle_minio_webhook unquote true (r ∷ []) s'
      ≡ (record { image_id = image_id; object_key = unquote r.key } ∷ [], ok tt)
unfolding handle_minio_webhook handle_record
webhook_finds unquote r image_id product_id s s' image create new free after =
    let mine : has_path (unquote r.key) image ≡ true = rw new (str_eq_refl (unquote r.key)) in
    let row = select-append (has_path (unquote r.key)) image_id image s.images free mine in
    rw after (rw create (rw row (rw new refl)))

not_there : (a b : String) → a ≢ b → str_eq a b ≡ false
not_there a b h = elim (Bool-cases (str_eq a b)) [
  | inl same ↦ absurd (h ((str_eq_iff a b).0 same))
  | inr other ↦ other
]

-- An upload is sanitized, where the queue is there: after an image has been registered under a path that no image has, the
-- event of the storage that tells of an object with that path enqueues the task for that image, and
-- nothing else.
pub create_upload_url-enqueued :
    (uuid_text : ℕ → String) (presigned_post : PresignedPost) (jwt : Jwt) (settings : Settings)
    (now : ℕ) (token : String) (image_id product_id : ℕ) (req : ImageUploadRequest) (s s' : Session)
    (answer : ImageUploadResponse) (unquote : String → String) (r : S3Record)
    → let path = upload_path uuid_text product_id image_id req.filename in
      IsKeyed s.images
      → ((i : ℕ) (image : ProductImage) → get i s.images ≡ some image → image.file_path ≢ path)
      → create_upload_url uuid_text presigned_post jwt settings now token image_id product_id req s
        ≡ ok (answer, s')
      → is_create r ≡ true
      → unquote r.key ≡ path
      → handle_minio_webhook unquote true (r ∷ []) s'
        ≡ (record { image_id = answer.image_id; object_key = path } ∷ [], ok tt)
unfolding create_upload_url generate_upload_url ensure_product_exists
create_upload_url-enqueued uuid_text presigned_post jwt settings now token image_id product_id req s
      s' answer unquote r keyed fresh_path h create key =
    let path = upload_path uuid_text product_id image_id req.filename in
    let new : ProductImage = record {
      product_id = product_id;
      file_path = path;
      status = ImageStatus.pending;
    } in
    elim (Result-cases (get_current_user jwt settings now token s)) [
      | inr (e, unknown) ↦ absurd (ground arith)
      | inl (u, known) ↦
          let after : s' ≡ record s { images = s.images ++ (image_id, new) ∷ [] } = ground arith in
          let same : answer.image_id ≡ image_id = ground arith in
          let free : select (has_path path) s.images ≡ [] =
            select_empty (has_path path) s.images keyed
              (λ i image found. not_there image.file_path path (fresh_path i image found)) in
          rw same (
            rw (← key) (
              webhook_finds unquote r image_id product_id s s' new create (rw key refl)
                (rw key free) after))
    ]
