-- ===== src/AuditLog.antt =====
-- The audit trail: `AuditLogService` of app/core/audit_log/service.py.
pub mod Masking
pub mod Changes
use fair_drop.Common.{
  ℕ, Bool, true, false, not, ◌||◌, String, Option, none, some, List, [], ◌∷◌, ◌++◌, map, str_eq,
  if◌then◌else◌,
}
use fair_drop.Json.{Json, null, boolean, str, arr, nil, cons, Dict, json_eq}
use fair_drop.Models.{AuditLog}
use fair_drop.Database.{Session, is_empty}

-- `k in SENSITIVE_FIELDS`
abbrev pub is_sensitive : String → Bool
is_sensitive k = str_eq k "shipping_address" || str_eq k "email"

abbrev pub hidden : Json
hidden = str "[SENSITIVE_DATA_HIDDEN]"

abbrev pub masked : String → Json → Json
masked k v = if is_sensitive k then hidden else v

-- `data.get(key)`
unfoldable pub dict_get : String → Dict → Json
dict_get k [] = null
dict_get k ((j, v) ∷ d) = if str_eq j k then v else dict_get k d

-- `[old, new]` by field name
abbrev pub Diff : Type 0
Diff = List (String × (Json × Json))

pub created_diff : Dict → Diff
created_diff [] = []
created_diff ((k, v) ∷ d) = (k, (null, masked k v)) ∷ created_diff d

pub deleted_diff : Dict → Diff
deleted_diff [] = []
deleted_diff ((k, v) ∷ d) = (k, (masked k v, null)) ∷ deleted_diff d

-- The loop over `new_data.items()`.
unfoldable pub changed_diff : Dict → Dict → Diff
changed_diff old_data [] = []
changed_diff old_data ((k, v) ∷ d) =
    let rest = changed_diff old_data d in
    let old_val = dict_get k old_data in
    if json_eq v old_val then rest else (k, (masked k old_val, masked k v)) ∷ rest

unfoldable pub get_diff : Option Dict → Option Dict → Diff
unfolding created_diff deleted_diff changed_diff
get_diff none (some new_model) = created_diff new_model
get_diff (some old_model) none = deleted_diff old_model
get_diff (some old_model) (some new_model) = changed_diff old_model new_model
get_diff none none = []

-- `changes[k] = v`
pub dict_set : String → Json → Dict → Dict
dict_set k v [] = (k, v) ∷ []
dict_set k v ((j, w) ∷ d) = if str_eq j k then (k, v) ∷ d else (j, w) ∷ dict_set k v d

-- `changes.update(extra_data)`
pub dict_update : Dict → Dict → Dict
unfolding dict_set
dict_update changes [] = changes
dict_update changes ((k, v) ∷ extra_data) = dict_update (dict_set k v changes) extra_data

abbrev pub pair_json : String × (Json × Json) → String × Json
pair_json (k, (old, new)) = (k, arr (cons old (cons new nil)))

pub log_event : ℕ → String → ℕ → String → Dict → Dict → Session → Session
log_event actor_id target_type target_id action changes extra_data s = record s {
  audit_logs =
      s.audit_logs
      ++ record {
        target_type = target_type;
        target_id = target_id;
        actor_id = actor_id;
        action = action;
        changes = dict_update changes extra_data;
        remote_ip = s.context.remote_ip;
        request_id = s.context.request_id;
      }
        ∷ [];
}

-- No extra data is the empty dict.
unfoldable pub log_object_change :
    ℕ → ℕ → String → String → Option Dict → Option Dict → Dict → Session → Session
unfolding log_event get_diff
log_object_change actor_id target_id target_type action old_obj new_obj extra_data s =
    let diff = get_diff old_obj new_obj in
    if is_empty diff
    then s
    else log_event actor_id target_type target_id action (map pair_json diff) extra_data s

abbrev pub json_of_option : Option String → Json
json_of_option none = null
json_of_option (some s) = str s

-- `{'pii_accessed': True, 'reason': reason}`
pub log_pii_access : ℕ → ℕ → String → Option String → Session → Session
unfolding log_event
log_pii_access actor_id target_id target_type reason s =
    log_event actor_id target_type target_id "pii_access"
      (("pii_accessed", boolean true) ∷ ("reason", json_of_option reason) ∷ []) [] s
