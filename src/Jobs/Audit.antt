-- ===== src/Jobs/Audit.antt =====
-- Code: server/audit/job-writer.js, and the part of server/repositories/mongo/job-repository.js that
-- writes audit events. An empty string is a value that is not there.
use Prim.Native.Char.{code}
use tech_pulse_ai.Jobs.Names.{Platform}
use tech_pulse_ai.Prelude.{
  js_length, leb, ◌==◌, Bool, List, Option, Result, String, [], concat, err, false, if◌then◌else◌,
  none, not, ok, some, str_eq, throw_if, true, ℕ, ◌&&◌, ◌>>=◌, ◌>>◌, ◌||◌, ◌∷◌,
}

pub data Failure : Type 0 where
  invalid_rule invalid_identity bound_event : Failure

pub data Action : Type 0 where
  ingestion_job_created ingestion_job_retry_created ingestion_job_cancelled : Action
  ingestion_job_cancellation_requested ingestion_job_lease_recovered indexing_job_created : Action
  indexing_job_retry_created indexing_job_cancelled indexing_job_cancellation_requested : Action
  indexing_job_lease_recovered unlisted : Action

pub record Rule : Type 0 where
  pub name : String
  pub target_type : String
  pub reason_code : String
  pub exact_fields : List String
  pub system_only : Bool

abbrev ingestion_rule : String → String → List String → Bool → Rule
ingestion_rule n r fs s = record {
  name = n;
  target_type = "ingestion-job";
  reason_code = r;
  exact_fields = fs;
  system_only = s;
}

abbrev indexing_rule : String → String → List String → Bool → Rule
indexing_rule n r fs s = record {
  name = n;
  target_type = "indexing-job";
  reason_code = r;
  exact_fields = fs;
  system_only = s;
}

-- `JOB_AUDIT_RULES`.
unfoldable pub rule_of : Action → Option Rule
rule_of ingestion_job_created =
    some
      (ingestion_rule "ingestion_job_created" "ingestion_trigger_requested" ("status" ∷ []) false)
rule_of ingestion_job_retry_created = some (
    ingestion_rule "ingestion_job_retry_created" "job_retry_requested"
      ("status" ∷ "attempt" ∷ "parentJobId" ∷ []) false)
rule_of ingestion_job_cancelled =
    some (ingestion_rule "ingestion_job_cancelled" "job_cancel_requested" ("status" ∷ []) false)
rule_of ingestion_job_cancellation_requested = some (
    ingestion_rule "ingestion_job_cancellation_requested" "job_cancel_requested"
      ("cancellationRequestedAt" ∷ []) false)
rule_of ingestion_job_lease_recovered = some (
    ingestion_rule "ingestion_job_lease_recovered" "lease_expired_recovered"
      ("status" ∷ "error" ∷ []) true)
rule_of indexing_job_created =
    some
      (indexing_rule "indexing_job_created" "artifact_regeneration_requested" ("status" ∷ []) false)
rule_of indexing_job_retry_created = some (
    indexing_rule "indexing_job_retry_created" "job_retry_requested"
      ("status" ∷ "attempt" ∷ "parentJobId" ∷ []) false)
rule_of indexing_job_cancelled =
    some (indexing_rule "indexing_job_cancelled" "job_cancel_requested" ("status" ∷ []) false)
rule_of indexing_job_cancellation_requested = some (
    indexing_rule "indexing_job_cancellation_requested" "job_cancel_requested"
      ("cancellationRequestedAt" ∷ []) false)
rule_of indexing_job_lease_recovered = some (
    indexing_rule "indexing_job_lease_recovered" "lease_expired_recovered" ("status" ∷ "error" ∷ [])
      true)
rule_of unlisted = none

-- `sameFields`.
unfoldable pub same_fields : List String → List String → Bool
same_fields [] [] = true
same_fields [] (y ∷ ys) = false
same_fields (x ∷ xs) [] = false
same_fields (x ∷ xs) (y ∷ ys) = str_eq x y && same_fields xs ys

-- The role of an actor; `no_role` is any other one.
pub data Role : Type 0 where
  admin system_worker no_role : Role

unfoldable pub role_name : Role → String
role_name admin = "admin"
role_name system_worker = "system-worker"
role_name no_role = ""

pub is_worker : Role → Bool
is_worker system_worker = true
is_worker _ = false

pub has_role : Role → Bool
has_role no_role = false
has_role _ = true

-- `validateJobAuditInput`: the rule of the action where it returns.
unfoldable pub validate_job_audit_input : Action → List String → String → Role → Result Failure Rule
unfolding same_fields is_worker
validate_job_audit_input action fields reason role = elim (rule_of action) [
  | none ↦ err invalid_rule
  | some rule ↦
      if not (str_eq rule.reason_code reason) || not (same_fields fields rule.exact_fields)
      then err invalid_rule
      else if rule.system_only && not (is_worker role)
      then err invalid_rule
      else ok rule
]

pub record Actor : Type 0 where
  pub id : String
  pub role : Role

-- `idempotencyKey ?? serverRequestId` and `actorSessionId`.
pub record Request : Type 0 where
  pub identity : String
  pub actor_session_id : Option String

pub record Event : Type 0 where
  pub event_id : String
  pub actor_type : Role
  pub actor_id : String
  pub action : Action
  pub target_id : String
  pub changed_fields : List String
  pub reason_code : String
  pub request_id : String
  pub created_at : ℕ

pub session_part : Request → String
session_part r = elim r.actor_session_id [ none ↦ "no-session" | some s ↦ s ]

unfoldable pub event_id_of : (String → String) → String → String → Request → String → String
unfolding session_part
event_id_of sha256 action target request actor = concat "job:" (
    sha256 (
      concat action (
        concat "\0" (
          concat target (
            concat "\0" (
              concat request.identity
                (concat "\0" (concat actor (concat "\0" (session_part request))))))))))

-- `createJobAuditEvent` with a result of `succeeded` and a valid date.
unfoldable pub create_job_audit_event :
    (String → String)
    → Actor
    → Action
    → String
    → List String
    → String
    → Request
    → ℕ
    → Result Failure Event
unfolding validate_job_audit_input has_role event_id_of
create_job_audit_event sha256 actor action target fields reason request now = do
  rule ← validate_job_audit_input action fields reason actor.role
  throw_if
      (not (has_role actor.role)
        || str_eq actor.id ""
        || str_eq target ""
        || str_eq request.identity "")
      invalid_identity
  ok (record {
    event_id = event_id_of sha256 rule.name target request actor.id;
    actor_type = actor.role;
    actor_id = actor.id;
    action = action;
    target_id = target;
    changed_fields = fields;
    reason_code = reason;
    request_id = request.identity;
    created_at = now;
  })

unfoldable pub action_name : Action → String
unfolding rule_of
action_name a = elim (rule_of a) [ none ↦ "" | some r ↦ r.name ]

-- Equality of `stableAudit`, which leaves out the date; the result is always `succeeded` here.
unfoldable pub same_event : Event → Event → Bool
unfolding action_name role_name same_fields
same_event a b =
    str_eq a.event_id b.event_id
    && str_eq (role_name a.actor_type) (role_name b.actor_type)
    && str_eq a.actor_id b.actor_id
    && str_eq (action_name a.action) (action_name b.action)
    && str_eq a.target_id b.target_id
    && same_fields a.changed_fields b.changed_fields
    && str_eq a.reason_code b.reason_code
    && str_eq a.request_id b.request_id

unfoldable pub find_event : String → List Event → Option Event
find_event i [] = none
find_event i (e ∷ es) = let rest = find_event i es in if str_eq e.event_id i then some e else rest

unfoldable pub is_name_char : ℕ → Bool
is_name_char c = leb b'a' c && leb c b'z' || leb b'0' c && leb c b'9' || c == b':' || c == b'-'

unfoldable pub all_name_chars : String → Bool
unfolding is_name_char
all_name_chars String.[] = true
all_name_chars (String.◌∷◌ c s) = is_name_char (code c) && all_name_chars s

-- `/^[a-z][a-z0-9:-]{2,127}$/.test(value)`.
unfoldable pub is_audit_name : String → Bool
unfolding all_name_chars
is_audit_name String.[] = false
is_audit_name (String.◌∷◌ c s) =
    leb b'a' (code c)
    && leb (code c) b'z'
    && all_name_chars s
    && leb 2 (js_length s)
    && leb (js_length s) 127

-- `auditId` of a text, with the `idValue` of a text that is an `ObjectId`.
unfoldable pub audit_id : Platform → String → Result Failure String
unfolding is_audit_name
audit_id p value = elim (p.object_id value) [
  | none ↦ if is_audit_name value then ok value else err invalid_identity
  | some hex ↦ if str_eq hex (p.lower_case value) then ok hex else err invalid_identity
]

-- `jobAuditDocument`, without the identity that the database gives it.
unfoldable pub job_audit_document : Platform → Event → Result Failure Event
unfolding validate_job_audit_input audit_id
job_audit_document p e = do
  rule ← validate_job_audit_input e.action e.changed_fields e.reason_code e.actor_type
  actor ← audit_id p e.actor_id
  target ← audit_id p e.target_id
  ok (record e { actor_id = actor; target_id = target })

-- `insertAudit`: an event is written once, and its identity never names another one.
unfoldable pub insert_audit : Platform → Event → List Event → Result Failure (List Event)
unfolding job_audit_document find_event same_event
insert_audit p e es = do
  safe ← job_audit_document p e
  elim (find_event safe.event_id es) [
    | none ↦ ok (safe ∷ es)
    | some old ↦ if same_event old safe then ok es else err bound_event
  ]
