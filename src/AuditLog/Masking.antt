-- ===== src/AuditLog/Masking.antt =====
-- Nothing sensitive reaches the audit trail.
use fair_drop.Common.{
  ◌≡◌, refl, ◌⊎◌, inl, inr, true, String, Option, none, some, [], ◌∷◌, All, Bool-cases, List,
  str_eq,
}
use fair_drop.Common.{ℕ, ◌++◌, map, false}
use fair_drop.Json.{Json, null, arr, nil, cons, Dict, json_eq}
use fair_drop.Models.{AuditLog}
use fair_drop.Database.{Session, is_empty}
use fair_drop.AuditLog.{
  is_sensitive, hidden, get_diff, created_diff, deleted_diff, changed_diff, dict_get, dict_set,
  dict_update, pair_json, Diff, log_event, log_object_change,
}

abbrev pub IsMasked : String × (Json × Json) → Type 0
IsMasked (k, (old, new)) =
    is_sensitive k ≡ true → ((old ≡ null) ⊎ (old ≡ hidden)) × ((new ≡ null) ⊎ (new ≡ hidden))

created_diff-IsMasked : (d : Dict) → All IsMasked (created_diff d)
unfolding created_diff
created_diff-IsMasked [] = tt
created_diff-IsMasked ((k, v) ∷ d) = (λ h. rw h (inl refl, inr refl), created_diff-IsMasked d)

deleted_diff-IsMasked : (d : Dict) → All IsMasked (deleted_diff d)
unfolding deleted_diff
deleted_diff-IsMasked [] = tt
deleted_diff-IsMasked ((k, v) ∷ d) = (λ h. rw h (inr refl, inl refl), deleted_diff-IsMasked d)

changed_diff-IsMasked : (old d : Dict) → All IsMasked (changed_diff old d)
unfolding changed_diff
changed_diff-IsMasked old [] = tt
changed_diff-IsMasked old ((k, v) ∷ d) = elim (Bool-cases (json_eq v (dict_get k old))) [
  | inl same ↦ rw (same, changed_diff) (changed_diff-IsMasked old d)
  | inr differs ↦
      rw (differs, changed_diff) ((λ h. rw h (inr refl, inr refl)), changed_diff-IsMasked old d)
]

-- In the diff of any two snapshots, of a creation and of a deletion, each of the two values of a
-- sensitive field is null or the mask.
get_diff-IsMasked : (old new : Option Dict) → All IsMasked (get_diff old new)
unfolding get_diff
get_diff-IsMasked none none = tt
get_diff-IsMasked none (some new) = created_diff-IsMasked new
get_diff-IsMasked (some old) none = deleted_diff-IsMasked old
get_diff-IsMasked (some old) (some new) = changed_diff-IsMasked old new

abbrev IsHidden : Json → Type 0
IsHidden v = (v ≡ null) ⊎ (v ≡ hidden)

-- A stored field that is sensitive holds two values, each null or the mask.
abbrev pub IsMaskedField : String × Json → Type 0
IsMaskedField (k, v) =
    is_sensitive k ≡ true
    → (old : Json) × (new : Json) × (v ≡ arr (cons old (cons new nil)))
      × IsHidden old
      × IsHidden new

abbrev pub IsMaskedEntry : AuditLog → Type 0
IsMaskedEntry entry = All IsMaskedField entry.changes

-- Data whose keys are no sensitive fields.
abbrev pub IsPlain : Dict → Type 0
IsPlain extra_data = All (λ (field : String × Json). is_sensitive field.0 ≡ false) extra_data

pairs-IsMasked : (diff : Diff) → All IsMasked diff → All IsMaskedField (map pair_json diff)
pairs-IsMasked [] _ = tt
pairs-IsMasked ((k, (old, new)) ∷ diff) (first, rest) =
    (λ h. (old, new, refl, (first h).0, (first h).1), pairs-IsMasked diff rest)

dict_set-IsMasked :
    (k : String) (v : Json) (d : Dict)
    → is_sensitive k ≡ false
    → All IsMaskedField d
    → All IsMaskedField (dict_set k v d)
unfolding dict_set
dict_set-IsMasked k v [] plain _ = (λ h. cc, tt)
dict_set-IsMasked k v ((j, w) ∷ d) plain (first, rest) = elim (Bool-cases (str_eq j k)) [
  | inl same ↦ rw (same, dict_set) (λ h. cc, rest)
  | inr other ↦ rw (other, dict_set) (first, dict_set-IsMasked k v d plain rest)
]

dict_update-IsMasked :
    (d extra_data : Dict)
    → IsPlain extra_data
    → All IsMaskedField d
    → All IsMaskedField (dict_update d extra_data)
unfolding dict_update
dict_update-IsMasked d [] _ masked_fields = masked_fields
dict_update-IsMasked d ((k, v) ∷ extra_data) (first, rest) masked_fields =
    dict_update-IsMasked (dict_set k v d) extra_data rest
      (dict_set-IsMasked k v d first masked_fields)

append-All :
    (entries : List AuditLog) (entry : AuditLog)
    → All IsMaskedEntry entries
    → IsMaskedEntry entry
    → All IsMaskedEntry (entries ++ entry ∷ [])
append-All [] entry _ last = (last, tt)
append-All (e ∷ entries) entry (first, rest) last = (first, append-All entries entry rest last)

-- Logging a change, whatever the two snapshots, keeps it so that no entry of the audit trail shows a
-- value of a sensitive field: each is null or the mask. The extra data that the caller adds is taken
-- to have no sensitive key.
pub log_object_change-IsMasked :
    (actor_id target_id : ℕ) (target_type action : String) (old new : Option Dict)
    (extra_data : Dict) (s : Session)
    → IsPlain extra_data
    → All IsMaskedEntry s.audit_logs
    → All IsMaskedEntry
        (log_object_change actor_id target_id target_type action old new extra_data s).audit_logs
unfolding log_object_change log_event
log_object_change-IsMasked actor_id target_id target_type action old new extra_data s plain kept =
    elim (Bool-cases (is_empty (get_diff old new))) [
      | inl same ↦ rw (same, log_object_change) kept
      | inr differs ↦
          rw (differs, log_object_change)
            (append-All s.audit_logs _ kept (
              dict_update-IsMasked (map pair_json (get_diff old new)) extra_data plain
                (pairs-IsMasked (get_diff old new) (get_diff-IsMasked old new))))
    ]
