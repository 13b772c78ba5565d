-- ===== src/AuditLog/Changes.antt =====
-- A log call writes the audit trail and nothing else, and it writes exactly if something changed.
use fair_drop.Common.{
  ℕ, ◌≡◌, refl, inl, inr, true, false, String, Option, [], ◌∷◌, ◌++◌, map, Bool-cases,
}
use fair_drop.Json.{Dict}
use fair_drop.Models.{AuditLog}
use fair_drop.Database.{Session, is_empty}
use fair_drop.AuditLog.{
  get_diff, log_event, log_object_change, log_pii_access, dict_update, pair_json,
}

pub log_object_change-frame :
    (actor_id target_id : ℕ) (target_type action : String) (old new : Option Dict) (extra : Dict)
    (s : Session)
    → let s' = log_object_change actor_id target_id target_type action old new extra s in
      s' ≡ record s { audit_logs = s'.audit_logs }
unfolding log_object_change log_event
log_object_change-frame actor_id target_id target_type action old new extra s =
    elim (Bool-cases (is_empty (get_diff old new))) [
      | inl same ↦ rw same
      | inr changed ↦ rw changed
    ]

pub log_pii_access-frame :
    (actor_id target_id : ℕ) (target_type : String) (reason : Option String) (s : Session)
    → let s' = log_pii_access actor_id target_id target_type reason s in
      s' ≡ record s { audit_logs = s'.audit_logs }
unfolding log_pii_access log_event
log_pii_access-frame actor_id target_id target_type reason s = refl

-- An entry of that actor about that target.
abbrev pub IsEntry : ℕ → ℕ → String → String → AuditLog → Type 0
IsEntry actor_id target_id target_type action a =
    (a.actor_id ≡ actor_id)
    × (a.target_id ≡ target_id)
    × (a.target_type ≡ target_type)
    × (a.action ≡ action)

-- The audit trail has grown by one such entry.
pub record IsLogged (actor_id target_id : ℕ) (target_type action : String) (s s' : Session)
    : Type 0 where
  pub entry : AuditLog
  pub about : IsEntry actor_id target_id target_type action entry
  pub written : s'.audit_logs ≡ s.audit_logs ++ entry ∷ []
  -- The entry has the address and the key of the request.
  pub from_request :
      (entry.remote_ip ≡ s.context.remote_ip) × (entry.request_id ≡ s.context.request_id)

module _ (actor_id target_id : ℕ) (target_type action : String) (old new : Option Dict)
    (extra : Dict) (s : Session) where
  pub log_object_change-writes :
      is_empty (get_diff old new) ≡ false
      → IsLogged actor_id target_id target_type action s
          (log_object_change actor_id target_id target_type action old new extra s)
  unfolding log_object_change log_event
  log_object_change-writes h = rw h (record {
    entry = record {
      target_type = target_type;
      target_id = target_id;
      actor_id = actor_id;
      action = action;
      changes = dict_update (map pair_json (get_diff old new)) extra;
      remote_ip = s.context.remote_ip;
      request_id = s.context.request_id;
    };
    about = (refl, refl, refl, refl);
    written = refl;
    from_request = (refl, refl);
  })

  pub log_object_change-silent :
      is_empty (get_diff old new) ≡ true
      → log_object_change actor_id target_id target_type action old new extra s ≡ s
  unfolding log_object_change
  log_object_change-silent h = rw h

-- An access to personal data always leaves an entry.
pub log_pii_access-IsLogged :
    (actor_id target_id : ℕ) (target_type : String) (reason : Option String) (s : Session)
    → IsLogged actor_id target_id target_type "pii_access" s
        (log_pii_access actor_id target_id target_type reason s)
unfolding log_pii_access log_event
log_pii_access-IsLogged actor_id target_id target_type reason s = record {
  entry = _;
  about = (refl, refl, refl, refl);
  written = refl;
  from_request = (refl, refl);
}
