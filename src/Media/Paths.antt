-- ===== src/Media/Paths.antt =====
-- Private files: `generate_presigned_get_url` and `get_secure_file_path` of
-- app/services/media/service.py, and the route `view_private_file`.
pub mod Normal
pub mod Views
use Prim.Native.Char.{Char, code}
use Prim.Native.String
use fair_drop.Common.{
  ℕ, zero, suc, Bool, true, false, not, String, Option, none, some, List, [], ◌∷◌, ◌==◌, str_eq,
  chars, contains, lstrip, strip_char, strip_prefix, if◌then◌else◌,
}
use fair_drop.Common.Table.{get}
use fair_drop.Exceptions.{Result, ok, forbidden, no_such_resource, ◌>>=◌, ◌>>◌, raise_if, or_raise}
use fair_drop.Config.{Settings}
use fair_drop.Json.{Json, null, boolean, str, num, arr, obj, nil, cons, end, field, Dict}
use fair_drop.Models.{User, is_staff}
use fair_drop.Database.{Session, is_some, is_empty}
use fair_drop.AuditLog.{log_pii_access}

abbrev pub slash : ℕ
slash = b'/'

abbrev pub has_scheme : String → Bool
has_scheme key = contains "://" key

-- `key.split('/', n)[n]`, where there are so many parts.
pub after_slashes : ℕ → String → Option String
after_slashes zero key = some key
after_slashes (suc n) String.[] = none
after_slashes (suc n) (String.◌∷◌ c key) =
    let next = after_slashes n key in
    let same = after_slashes (suc n) key in if code c == slash then next else same

abbrev pub or_key : Option String → String → String
or_key none key = key
or_key (some path) key = path

-- `if '://' in key: parts = key.split('/', 3); if len(parts) >= 4: key = parts[3]`
pub path_of : String → String
path_of key = if has_scheme key then or_key (after_slashes 3 key) key else key

abbrev pub after_slash : Option String → Option String
after_slash none = none
after_slash (some rest) = strip_char slash rest

-- `key[len(b) + 1 :]`, where `key.startswith(f'{b}/')`
pub strip_bucket : String → String → Option String
strip_bucket b key = after_slash (strip_prefix b key)

abbrev pub updated : Option String → String × Bool → String × Bool
updated none state = state
updated (some key') state = (key', true)

-- The `for` loop, on the key and on whether anything was stripped.
pub strip_buckets : List String → String × Bool → String × Bool
strip_buckets [] state = state
strip_buckets (b ∷ buckets) state = strip_buckets buckets (updated (strip_bucket b state.0) state)

-- The `while True` loop, with a bound on its rounds; `none` is a loop that has not ended.
pub strip_all : ℕ → List String → String → Option String
strip_all zero buckets key = none
strip_all (suc rounds) buckets key =
    let (key', stripped) = strip_buckets buckets (lstrip slash key, false) in
    let rest = strip_all rounds buckets key' in if stripped then rest else some key'

abbrev pub bucket_candidates : Settings → List String
bucket_candidates settings =
    settings.minio_bucket_name ∷ "s3_fairdrop-media" ∷ "s3-fairdrop-media" ∷ []

-- The last `lstrip`.
abbrev pub trimmed : Option String → Option String
trimmed none = none
trimmed (some key) = some (lstrip slash key)

-- The object's key: one more round than the path has characters is enough.
pub object_key : Settings → String → Option String
object_key settings key =
    let path = path_of key in
    trimmed (strip_all (suc (chars path)) (bucket_candidates settings) path)

-- `text.replace(old, new)` for a text `old` that is not empty; `skip` characters are dropped.
unfoldable pub replace_from : String → String → ℕ → String → String
replace_from old new skip String.[] = String.[]
replace_from old new (suc skip) (String.◌∷◌ c text) = replace_from old new skip text
replace_from old new zero (String.◌∷◌ c text) =
    let hit = String.◌++◌ new (replace_from old new (pred (chars old)) text) in
    let miss = String.◌∷◌ c (replace_from old new zero text) in
    if is_some (strip_prefix old (String.◌∷◌ c text)) then hit else miss
  where
    pred : ℕ → ℕ
    pred zero = zero
    pred (suc n) = n

-- `if settings.minio_url != settings.s3_public_url: url = url.replace(…)`
unfoldable pub public_url : Settings → String → String
public_url settings url =
    if str_eq settings.minio_url settings.s3_public_url
    then url
    else replace_from settings.minio_url settings.s3_public_url 0 url

abbrev pub signed : (String → String → ℕ → String) → Settings → ℕ → Option String → Option String
signed presign settings expires_in none = none
signed presign settings expires_in (some key) =
    some (public_url settings (presign settings.minio_bucket_name key expires_in))

-- The client's `generate_presigned_url` is the parameter `presign`, of the bucket, the key and the
-- seconds; the storage's own host is replaced by the public one.
pub generate_presigned_get_url :
    (String → String → ℕ → String) → Settings → String → ℕ → Option String
generate_presigned_get_url presign settings key expires_in =
    signed presign settings expires_in (object_key settings key)

-- `docs_url.get(doc_key)`
unfoldable pub doc_value : String → Dict → Option Json
doc_value key [] = none
doc_value key ((k, v) ∷ docs) = if str_eq k key then some v else doc_value key docs

-- `str(doc_val) if doc_val else None`; `show` is `str` of a value that is not a text.
abbrev pub shown : (Json → String) → Option Json → Option String
shown show none = none
shown show (some null) = none
shown show (some (boolean false)) = none
shown show (some (boolean true)) = some (show (boolean true))
shown show (some (str text)) = if str_eq text "" then none else some text
shown show (some (num n)) = if n == 0 then none else some (show (num n))
shown show (some (arr nil)) = none
shown show (some (arr (cons x xs))) = some (show (arr (cons x xs)))
shown show (some (obj end)) = none
shown show (some (obj (field k v fs))) = some (show (obj (field k v fs)))

abbrev pub doc_path : (Json → String) → Option Dict → Option String → Option String
doc_path show none doc_key = none
doc_path show (some docs) none = none
doc_path show (some docs) (some key) =
    if is_empty docs
    then none
    else (if str_eq key "" then none else shown show (doc_value key docs))

unfoldable pub get_secure_file_path :
    (Json → String) → String → ℕ → Option String → Session → Option String
get_secure_file_path show target_type target_id doc_key s =
    if str_eq target_type "verification_doc"
    then elim (get target_id s.verification_requests) [
      | none ↦ none
      | some v ↦ doc_path show v.docs_url doc_key
    ]
    else if str_eq target_type "product_image"
    then elim (get target_id s.images) [ none ↦ none | some image ↦ some image.file_path ]
    else none

-- `if not file_path`
abbrev pub non_empty : Option String → Option String
non_empty none = none
non_empty (some path) = if str_eq path "" then none else some path

-- `f'viewing_doc_{doc_key}' if doc_key else 'viewing_verification_doc'`
abbrev pub view_reason : Option String → String
view_reason none = "viewing_verification_doc"
view_reason (some key) =
    if str_eq key "" then "viewing_verification_doc" else String.◌++◌ "viewing_doc_" key

-- The route: the address that the user is sent to, and the session with the access logged.
unfoldable pub view_private_file :
    (Json → String)
    → (String → String → ℕ → String)
    → Settings
    → String
    → ℕ
    → Option String
    → User
    → Session
    → Result (Option String × Session)
view_private_file show presign settings target_type target_id doc_key current_user s = do
  raise_if (not (is_staff current_user.role)) forbidden
  file_path ←
      or_raise (non_empty (get_secure_file_path show target_type target_id doc_key s))
        no_such_resource
  ok (
    generate_presigned_get_url presign settings file_path 3600,
    (if str_eq target_type "verification_doc"
        then log_pii_access current_user.id target_id "verification_request"
            (some (view_reason doc_key)) s
        else s),
  )
