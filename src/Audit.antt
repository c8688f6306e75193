-- ===== src/Audit.antt =====
-- rust/crates/luck-core/src/audit.rs: `AuditLog`, a bounded log with the newest event in front.
-- The clock's reading is part of the `Entry` that `record_event` takes.
pub mod Record
use luck_editor.Prelude.{
  ℕ, zero, suc, ◌+◌, ◌-◌, ◌≤◌, ◌<◌, List, [], ◌∷◌, ◌++◌, Bool, true, false, not, if◌then◌else◌,
  Option, none, some, ◌≡◌, refl, arith, length, take, ltb, leb, ◌==◌, min, max, filter, All, head?,
  is_empty, ap, ◌∙◌, sym, All-imp, take_of_length-le, length-take-le, subst, length-append,
  Bool-cases, inl, inr,
}
use luck_editor.Prelude.Bounded.{truncate_back}
use luck_editor.Text.{Text}

pub data AuditOperation : Type 0 where
  parse validate import_ export add_ update delete bulk_delete : AuditOperation
  snapshot_create snapshot_delete policy_check : AuditOperation

-- The place of the constructor in the declaration.
abbrev pub tag : AuditOperation → ℕ
tag AuditOperation.parse = 0
tag AuditOperation.validate = 1
tag AuditOperation.import_ = 2
tag AuditOperation.export = 3
tag AuditOperation.add_ = 4
tag AuditOperation.update = 5
tag AuditOperation.delete = 6
tag AuditOperation.bulk_delete = 7
tag AuditOperation.snapshot_create = 8
tag AuditOperation.snapshot_delete = 9
tag AuditOperation.policy_check = 10

pub record AuditEvent : Type 0 where
  pub id : ℕ
  pub timestamp_millis : ℕ
  pub operation : AuditOperation
  pub domain : Option Text
  pub count : ℕ
  pub success : Bool
  pub detail : Option Text

pub record AuditLog : Type 0 where
  pub maximum_events : ℕ
  pub next_id : ℕ
  pub events : List AuditEvent

unfoldable pub new_log : ℕ → AuditLog
new_log maximum_events = record { maximum_events = max maximum_events 1; next_id = 1; events = [] }

abbrev pub default_log : AuditLog
default_log = new_log 200

-- Texts are cut at a number of characters, the last of them the ellipsis.
unfoldable pub truncate : Text → ℕ → Text
truncate value maximum =
    if leb (length value) maximum then value else take (maximum - 1) value ++ (0x2026 ∷ [])

abbrev pub truncated : Option Text → Option Text
truncated none = none
truncated (some t) = some (truncate t 500)

abbrev pub u64_max : ℕ
u64_max = 0xffff_ffff_ffff_ffff

-- What the caller of `record` passes, and the clock's reading.
pub record Entry : Type 0 where
  pub operation : AuditOperation
  pub domain : Option Text
  pub count : ℕ
  pub success : Bool
  pub detail : Option Text
  pub now_millis : ℕ

unfoldable pub event_of : AuditLog → Entry → AuditEvent
unfolding truncate
event_of log e = record {
  id = log.next_id;
  timestamp_millis = e.now_millis;
  operation = e.operation;
  domain = e.domain;
  count = e.count;
  success = e.success;
  detail = truncated e.detail;
}

-- `record`, that returns the first event of the new log too.
unfoldable pub record_event : AuditLog → Entry → AuditLog × Option AuditEvent
unfolding event_of
record_event log e =
    let pushed = event_of log e ∷ log.events in
    let kept = truncate_back log.maximum_events pushed in
    (
      record {
        maximum_events = log.maximum_events;
        next_id = min (log.next_id + 1) u64_max;
        events = kept;
      },
      head? kept,
    )

unfoldable pub successful : AuditLog → List AuditEvent
successful log = filter (λ e. e.success) log.events

unfoldable pub failed : AuditLog → List AuditEvent
failed log = filter (λ e. not e.success) log.events

unfoldable pub by_operation : AuditLog → AuditOperation → List AuditEvent
by_operation log op = filter (λ e. tag e.operation == tag op) log.events

unfoldable pub clear : AuditLog → AuditLog
clear log = record log { events = [] }

abbrev pub log_len : AuditLog → ℕ
log_len log = length log.events

-- Calls of `record` one after another.
unfoldable pub record_all : AuditLog → List Entry → AuditLog
unfolding record_event
record_all log [] = log
record_all log (e ∷ es) = record_all (record_event log e).0 es

-- The events of the calls, the newest in front, on top of `acc`.
unfoldable pub events_of : ℕ → List Entry → List AuditEvent → List AuditEvent
unfolding event_of
events_of n [] acc = acc
events_of n (e ∷ es) acc =
    events_of (min (n + 1) u64_max) es
      (event_of (record { maximum_events = 0; next_id = n; events = [] }) e ∷ acc)
