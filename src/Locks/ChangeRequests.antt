-- ===== src/Locks/ChangeRequests.antt =====
-- `CRService` of api/services/locks/cr_service.py: change requests that unlock the folders of a
-- scope for some hours. New identifiers and the time of a call are arguments. The service stands
-- without its optional notification and SharePoint services, whose calls write no row of these
-- tables and whose exceptions it swallows.
pub mod Validation
pub mod Unlock
pub mod Closing
pub mod Expiry
mod Tests
use pool_shrpnt.Prelude.{
  ℕ, ◌+◌, ◌*◌, Bool, true, false, not, ◌&&◌, ◌||◌, ◌++◌, List, [], ◌∷◌, Option, none, some, ltb,
  leb, ◌==◌, if◌then◌else◌, length, map,
}
use pool_shrpnt.Prelude.Text.{Text, codes, text_eq, contains}
use pool_shrpnt.Prelude.Int.{ℤ, pos, negsuc, leb_ℤ}
use pool_shrpnt.Prelude.Table.{select, first, update, insert, exists}
use pool_shrpnt.Prelude.Clock.{shift_hours}
use pool_shrpnt.Prelude.Outcome.{bad_request, not_found, conflict, overflow_error}
use pool_shrpnt.Prelude.Raise.{Action, pure, gets, or_raise, modify, raise_if, ◌>>=◌, ◌>>◌}
use pool_shrpnt.Locks.Model.{LockState, manual, automatic, write, read, is_value}

-- The values of `CRScope`, and any other text that a caller may send.
pub data Scope : Type 0 where
  experts deliverables : Scope
  other : Text → Scope

pub data CrStatus : Type 0 where
  active expired closed : CrStatus

abbrev pub is_open : CrStatus → Bool
is_open active = true
is_open expired = false
is_open closed = false

abbrev pub scope_eq : Scope → Scope → Bool
scope_eq experts experts = true
scope_eq deliverables deliverables = true
scope_eq (other s) (other t) = text_eq s t
scope_eq _ _ = false

pub record ChangeRequest : Type 0 where
  pub id : ℕ
  pub em_id : ℕ
  pub scope : Scope
  pub reason : Text
  pub created_by : ℕ
  pub created_at : ℕ
  pub expires_at : ℕ
  pub closed_at : Option ℕ
  pub closed_by : Option ℕ
  pub status : CrStatus
  pub duration_hours : ℤ
  pub updated_at : Option ℕ

pub data CrEvent : Type 0 where
  cr_opened cr_closed cr_expires : CrEvent

-- An audit event: what happened, to which request, and how many other active ones there were.
pub record CrAudit : Type 0 where
  pub event : CrEvent
  pub cr_id : ℕ
  pub other_active : ℕ

pub record CrDb : Type 0 where
  pub orders : List ℕ
  pub requests : List ChangeRequest
  pub states : List LockState
  pub audit : List CrAudit

-- What a caller asks of `create_cr`.
pub record CrRequest : Type 0 where
  pub em_id : ℕ
  pub scope : Scope
  pub reason : Text
  pub created_by : ℕ
  pub duration_hours : ℤ

abbrev pub is_known : Scope → Bool
is_known experts = true
is_known deliverables = true
is_known (other _) = false

-- `duration_hours < 1 or duration_hours > 72`
abbrev pub out_of_range : ℤ → Bool
out_of_range hours = not (leb_ℤ (pos 1) hours) || not (leb_ℤ hours (pos 72))

-- `_get_folder_patterns`: the text between the two `%` of each LIKE pattern.
pub get_folder_patterns : Scope → List Text
get_folder_patterns experts = codes "/2. Szakértők/" ∷ codes "/Szakértők/" ∷ codes "/experts/" ∷ []
get_folder_patterns deliverables =
    codes "/3. Eredménytermékek/" ∷ codes "/Eredménytermékek/" ∷ codes "/deliverables/" ∷ []
get_folder_patterns (other _) = []

-- An active lock state of the order whose path is LIKE `%pattern%`.
abbrev pub is_affected : ℕ → Text → LockState → Bool
is_affected em_id pattern_text s =
    is_value s.order_em_id em_id && contains s.folder_path pattern_text && s.is_active

abbrev pub unlocked : ChangeRequest → ℕ → LockState → LockState
unlocked cr now s = record s {
  permission_level = some write;
  lock_type = manual;
  is_manual_override = true;
  override_reason = some (codes "CR unlock: " ++ cr.reason);
  updated_at = some now;
  cr_id = some cr.id;
  cr_expires_at = some cr.expires_at;
  cr_reason = some cr.reason;
}

-- The loop of `_apply_cr_unlock` over the patterns.
pub apply_patterns : ChangeRequest → ℕ → List Text → List LockState → List LockState
apply_patterns cr now [] states = states
apply_patterns cr now (p ∷ ps) states =
    apply_patterns cr now ps (update (is_affected cr.em_id p) (unlocked cr now) states)

pub apply_cr_unlock : ChangeRequest → ℕ → List LockState → List LockState
unfolding apply_patterns
apply_cr_unlock cr now = apply_patterns cr now (get_folder_patterns cr.scope)

abbrev pub linked : ℕ → LockState → Bool
linked cr_id s = is_value s.cr_id cr_id && s.is_active

abbrev pub relocked : ℕ → LockState → LockState
relocked now s = record s {
  permission_level = some read;
  lock_type = automatic;
  is_manual_override = false;
  override_reason = none;
  updated_at = some now;
  cr_id = none;
  cr_expires_at = none;
  cr_reason = none;
}

-- `_revert_cr_lock` finds the states by the request that they name.
pub revert_cr_lock : ChangeRequest → ℕ → List LockState → List LockState
revert_cr_lock cr now = update (linked cr.id) (relocked now)

abbrev pub cr_of : ℕ → ℕ → ℕ → CrRequest → ChangeRequest
cr_of id now expires_at q = record {
  id = id;
  em_id = q.em_id;
  scope = q.scope;
  reason = q.reason;
  created_by = q.created_by;
  created_at = now;
  expires_at = expires_at;
  closed_at = none;
  closed_by = none;
  status = active;
  duration_hours = q.duration_hours;
  updated_at = none;
}

-- The flush of a row whose key is taken is an IntegrityError: the session is rolled back and a
-- ConflictError raised. The query for overlapping requests only serves a log message.
pub create_cr : ℕ → CrRequest → ℕ → Action CrDb ChangeRequest
unfolding apply_cr_unlock shift_hours
create_cr id q now = do
  raise_if (not (is_known q.scope)) bad_request
  raise_if (ltb (length q.reason) 20) bad_request
  raise_if (out_of_range q.duration_hours) bad_request
  db ← gets (λ d. d)
  raise_if (not (exists (λ o. o == q.em_id) db.orders)) not_found
  expires_at ← or_raise (shift_hours now q.duration_hours) overflow_error
  raise_if (exists (λ r. r.id == id) db.requests) conflict
  let cr = cr_of id now expires_at q
  modify (λ d. record d {
    requests = insert cr d.requests;
    states = apply_cr_unlock cr now d.states;
    audit = insert (record { event = cr_opened; cr_id = id; other_active = 0 }) d.audit;
  })
  pure cr

abbrev pub set_closed : ℕ → ℕ → ChangeRequest → ChangeRequest
set_closed closed_by now cr = record cr {
  closed_at = some now;
  closed_by = some closed_by;
  status = closed;
  updated_at = some now;
}

abbrev pub set_expired : ℕ → ChangeRequest → ChangeRequest
set_expired now cr = record cr { status = expired; updated_at = some now }

-- The other active requests for the order and the scope of `cr`.
abbrev pub is_other_active : ChangeRequest → ChangeRequest → Bool
is_other_active cr r =
    r.em_id == cr.em_id && scope_eq r.scope cr.scope && is_open r.status && not (r.id == cr.id)

-- A request ends: its row is written, and the folders are locked again unless another active request
-- covers them.
pub end_request : CrEvent → (ChangeRequest → ChangeRequest) → ℕ → ChangeRequest → CrDb → CrDb
unfolding revert_cr_lock
end_request event ended now cr db =
    let requests = update (λ r. r.id == cr.id) ended db.requests in
    let others = select (is_other_active cr) requests in
    record db {
      requests = requests;
      states = elim others [ [] ↦ revert_cr_lock cr now db.states | _ ∷ _ ↦ db.states ];
      audit =
          insert (record { event = event; cr_id = cr.id; other_active = length others }) db.audit;
    }

pub close_cr : ℕ → ℕ → ℕ → Action CrDb ChangeRequest
close_cr cr_id closed_by now = do
  db ← gets (λ d. d)
  cr ← or_raise (first (λ r. r.id == cr_id) db.requests) not_found
  raise_if (not (is_open cr.status)) conflict
  modify (end_request cr_closed (set_closed closed_by now) now cr)
  pure (set_closed closed_by now cr)

-- The active requests of an order, the latest first.
pub place_latest : ChangeRequest → List ChangeRequest → List ChangeRequest
place_latest r [] = r ∷ []
place_latest r (x ∷ xs) =
    if leb x.created_at r.created_at then r ∷ x ∷ xs else x ∷ place_latest r xs

pub latest_first : List ChangeRequest → List ChangeRequest
unfolding place_latest
latest_first [] = []
latest_first (r ∷ rs) = place_latest r (latest_first rs)

pub get_active_crs : ℕ → CrDb → List ChangeRequest
unfolding latest_first
get_active_crs em_id db =
    latest_first (select (λ r. r.em_id == em_id && is_open r.status) db.requests)

-- An active request whose time is over.
abbrev pub is_due : ℕ → ChangeRequest → Bool
is_due now r = is_open r.status && leb r.expires_at now

-- The loop of `expire_crs`. The audit commits, so each round reads what the earlier ones wrote.
pub expire_each : ℕ → List ChangeRequest → CrDb → CrDb
expire_each now [] db = db
expire_each now (cr ∷ crs) db =
    expire_each now crs (end_request cr_expires (set_expired now) now cr db)

pub expire_crs : ℕ → CrDb → List ChangeRequest × CrDb
unfolding expire_each
expire_crs now db =
    let expired_crs = select (is_due now) db.requests in
    (map (set_expired now) expired_crs, expire_each now expired_crs db)
