-- ===== src/Media/Sanitized.antt =====
-- What the task leaves behind.
use fair_drop.Common.{
  ℕ, ◌≡◌, ◌⊎◌, refl, ap, ◌∙◌, inl, inr, Bool, true, false, ◌&&◌, String, some, arith, Option-cases,
  Bool-cases, ◌==◌, if◌then◌else◌,
}
use fair_drop.Common.Table.{get, put}
use fair_drop.Common.Table.Laws.{get-put}
use fair_drop.Models.{ProductImage, ImageStatus}
use fair_drop.Database.{Session}
use fair_drop.Media.{Storage, sanitize, set_status, sanitize_and_activate_image_task}

-- An object that was read, processed, and put back.
pub record IsSanitized (storage : Storage) (key : String) (objects objects' : storage.Objects)
    : Type 0 where
  pub raw : storage.Image
  pub clean : storage.Image
  pub read : storage.get_object key objects ≡ some raw
  pub processed : storage.process raw ≡ some clean
  pub stored : storage.get_object key objects' ≡ some clean

-- The objects are as they were, or an object that was read has been put back processed, as far as the
-- put went.
abbrev pub IsRewritten : (storage : Storage) → String → storage.Objects → storage.Objects → Type 0
IsRewritten storage key objects objects' =
    (objects' ≡ objects)
    ⊎ ((raw : storage.Image) × (clean : storage.Image) × (storage.get_object key objects ≡ some raw)
        × (storage.process raw ≡ some clean)
        × (objects' ≡ (storage.put_object key clean objects).0))

module _ (storage : Storage) (key : String) (objects : storage.Objects) where
  sanitize-stored :
      (sanitize storage key objects).1 ≡ true
      → IsSanitized storage key objects (sanitize storage key objects).0
  unfolding sanitize
  sanitize-stored h = elim (Option-cases (storage.get_object key objects)) [
    | inl missing ↦ absurd (ground arith)
    | inr (raw, read) ↦ elim (Option-cases (storage.process raw)) [
      | inl invalid ↦ absurd (ground arith)
      | inr (clean, processed) ↦ record {
        raw = raw;
        clean = clean;
        read = read;
        processed = processed;
        stored = storage.get_object-put_object key clean objects _ (ground arith);
      }
    ]
  ]

  sanitize-IsRewritten : IsRewritten storage key objects (sanitize storage key objects).0
  unfolding sanitize
  sanitize-IsRewritten = elim (Option-cases (storage.get_object key objects)) [
    | inl missing ↦ inl (rw missing refl)
    | inr (raw, read) ↦ elim (Option-cases (storage.process raw)) [
      | inl invalid ↦ inl (rw (read, invalid) refl)
      | inr (clean, processed) ↦ inr (raw, clean, read, processed, rw (read, processed) refl)
    ]
  ]

set_status-images :
    (image_id : ℕ) (status : ImageStatus) (s : Session) (image : ProductImage)
    → get image_id s.images ≡ some image
    → (set_status image_id status s).images
      ≡ put image_id (record image { status = status }) s.images
unfolding set_status
set_status-images image_id status s image found = ground arith

status_set :
    (image_id : ℕ) (status : ImageStatus) (s : Session) (image : ProductImage) (j : ℕ)
    → get image_id s.images ≡ some image
    → get j (set_status image_id status s).images
      ≡ (if image_id == j then some (record image { status = status }) else get j s.images)
status_set image_id status s image j found =
    ap (get j) (set_status-images image_id status s image found)
    ∙ get-put j image_id (record image { status = status }) image s.images found

-- Where the database takes the status FAILED, the task ends, and no image but its own changes. It
-- makes the image active, and then the object was read, processed and stored; or it makes the image
-- failed, and then a step on the storage or the activation has failed, and no other object than the
-- processed one has been put.
pub sanitize_and_activate_image_task-IsSanitized :
    (storage : Storage) (activates marks : Bool) (image_id : ℕ) (key : String)
    (objects : storage.Objects) (s : Session) (image : ProductImage)
    → get image_id s.images ≡ some image
    → marks ≡ true
    → let (objects', ended) =
        sanitize_and_activate_image_task storage activates marks image_id key objects s in
      (s' : Session) × (status : ImageStatus) × (ended ≡ some s')
      × ((j : ℕ)
          → get j s'.images
            ≡ (if image_id == j then some (record image { status = status }) else get j s.images))
      × (((status ≡ ImageStatus.active) × IsSanitized storage key objects objects')
          ⊎ ((status ≡ ImageStatus.failed)
              × ((sanitize storage key objects).1 && activates ≡ false)
              × IsRewritten storage key objects objects'))
unfolding sanitize_and_activate_image_task
sanitize_and_activate_image_task-IsSanitized storage activates marks image_id key objects s image
      found ends =
    elim (Bool-cases ((sanitize storage key objects).1 && activates)) [
      | inr failed ↦ (
        set_status image_id ImageStatus.failed s,
        ImageStatus.failed,
        ground arith,
        (λ j. status_set image_id ImageStatus.failed s image j found),
        inr (refl, failed, sanitize-IsRewritten storage key objects),
      )
      | inl done ↦ (
        set_status image_id ImageStatus.active s,
        ImageStatus.active,
        ground arith,
        (λ j. status_set image_id ImageStatus.active s image j found),
        inl (refl, sanitize-stored storage key objects (ground arith)),
      )
    ]
