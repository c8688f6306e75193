-- ===== src/Audit/Record.antt =====
-- What `record` keeps: the newest events, valid.
use luck_editor.Prelude.{
  ℕ, zero, suc, ◌+◌, ◌-◌, ◌≤◌, ◌<◌, List, [], ◌∷◌, ◌++◌, if◌then◌else◌, Option, none, some, ◌≡◌,
  refl, arith, length, take, leb, min, All, head?, ap, ◌∙◌, sym, take_of_length-le, length-take-le,
  subst, length-append, Bool-cases, inl, inr,
}
use luck_editor.Prelude.Bounded.{truncate_back-take}
use luck_editor.Text.{Text}
use luck_editor.Audit.{
  AuditEvent, AuditLog, new_log, truncate, truncated, u64_max, Entry, event_of, record_event,
  record_all, events_of,
}

take-take :
    (n m : ℕ) (x : AuditEvent) (xs : List AuditEvent)
    → n ≤ suc m
    → take n (x ∷ take m xs) ≡ take n (x ∷ xs)
take-take zero m x xs h = refl
take-take (suc n) m x [] h = ap (λ ys. take (suc n) (x ∷ ys)) (take_of_length-le m [] (omega arith))
take-take (suc zero) m x (y ∷ xs) h = refl
take-take (suc (suc n)) zero x (y ∷ xs) h = absurd (omega arith)
take-take (suc (suc n)) (suc m) x (y ∷ xs) h = ap (◌∷◌ x) (take-take (suc n) m y xs (omega arith))

-- The limit of a log is positive.
abbrev pub HasRoom : AuditLog → Type 0
HasRoom log = 1 ≤ log.maximum_events

record-events :
    (log : AuditLog) (e : Entry)
    → (record_event log e).0.events ≡ take log.maximum_events (event_of log e ∷ log.events)
unfolding record_event
record-events log e = truncate_back-take log.maximum_events (event_of log e ∷ log.events)

-- `record` returns the event that it added, which stands in front of the log; with a limit of at
-- least one, as every log has, it is there.
pub record_event_lem :
    (log : AuditLog) (e : Entry) → HasRoom log → (record_event log e).1 ≡ some (event_of log e)
unfolding record_event
record_event_lem log e h = ap head? (record-events log e) ∙ front log.maximum_events h
  where
    front : (m : ℕ) → 1 ≤ m → head? (take m (event_of log e ∷ log.events)) ≡ some (event_of log e)
    front zero k = absurd (omega arith)
    front (suc m) k = refl

-- After any calls of `record`, the log holds the events of the calls and those that were there
-- before, the newest in front, cut to the limit: nothing else is lost and the order stays.
pub record_all_lem :
    (log : AuditLog) (es : List Entry) (acc : List AuditEvent)
    → HasRoom log
    → log.events ≡ take log.maximum_events acc
    → (record_all log es).events ≡ take log.maximum_events (events_of log.next_id es acc)
unfolding record_all events_of
record_all_lem log [] acc h e = e
record_all_lem log (x ∷ es) acc h e =
    let log' = (record_event log x).0 in
    record_all_lem log' es (event_of log x ∷ acc) (unfold record_event in h) (
      unfold record_event in
      record-events log x
      ∙ ap (λ evs. take log.maximum_events (event_of log x ∷ evs)) e
      ∙ take-take log.maximum_events log.maximum_events (event_of log x) acc (omega arith))

-- The identifiers descend from a bound.
abbrev pub IsDescending : ℕ → List AuditEvent → Type 0
IsDescending n [] = Unit {0}
IsDescending n (e ∷ es) = (e.id < n) × IsDescending e.id es

abbrev pub AtMost : ℕ → Option Text → Type 0
AtMost n none = Unit {0}
AtMost n (some t) = length t ≤ n

abbrev pub IsShort : AuditEvent → Type 0
IsShort e = AtMost 500 e.detail

-- The log is within its limit, which is positive; from the front the identifiers descend, below
-- the next one; no detail has more than 500 characters.
pub record IsValid (log : AuditLog) : Type 0 where
  pub room : HasRoom log
  pub bounded : length log.events ≤ log.maximum_events
  pub descending : IsDescending log.next_id log.events
  pub short : All IsShort log.events

length-truncate : (t : Text) (n : ℕ) → 1 ≤ n → length (truncate t n) ≤ n
unfolding truncate
length-truncate t n h = elim (Bool-cases (leb (length t) n)) [
  | inl e ↦
      subst (λ b. length (if b then t else take (n - 1) t ++ (0x2026 ∷ [])) ≤ n) (sym e)
        (ground arith)
  | inr e ↦
      subst (λ b. length (if b then t else take (n - 1) t ++ (0x2026 ∷ [])) ≤ n) (sym e)
        (omega (arith, length-append (take (n - 1) t) (0x2026 ∷ []), length-take-le (n - 1) t))
]

truncated-short : (o : Option Text) → AtMost 500 (truncated o)
truncated-short none = tt
truncated-short (some t) = length-truncate t 500 (omega arith)

take-IsDescending :
    (m n : ℕ) (es : List AuditEvent) → IsDescending n es → IsDescending n (take m es)
take-IsDescending zero n es h = tt
take-IsDescending (suc m) n [] h = tt
take-IsDescending (suc m) n (e ∷ es) (h, hs) = (h, take-IsDescending m e.id es hs)

take-All : (m : ℕ) (es : List AuditEvent) → All IsShort es → All IsShort (take m es)
take-All zero es h = tt
take-All (suc m) [] h = tt
take-All (suc m) (e ∷ es) (h, hs) = (h, take-All m es hs)

-- `record` keeps a log valid, as long as the identifiers have not reached the end of `u64`, where
-- `saturating_add` gives the same one again.
pub record_event-IsValid :
    (log : AuditLog) (e : Entry)
    → IsValid log
    → log.next_id < u64_max
    → IsValid (record_event log e).0
record_event-IsValid log e v h =
    let ev = event_of log e in
    let m = log.maximum_events in
    record {
      room = unfold record_event in v.room;
      bounded =
          unfold record_event in
          subst (λ evs. length evs ≤ m) (sym (record-events log e))
            (length-take-le m (ev ∷ log.events));
      descending =
          unfold record_event event_of in
          subst (IsDescending (min (log.next_id + 1) u64_max)) (sym (record-events log e)) (
            take-IsDescending m (min (log.next_id + 1) u64_max) (ev ∷ log.events)
              (ground arith, v.descending));
      short =
          subst (All IsShort) (sym (record-events log e))
            (take-All m (ev ∷ log.events) (unfold event_of in truncated-short e.detail, v.short));
    }

-- A new log is valid, with a limit of one where none was asked for.
pub new_log-IsValid : (maximum_events : ℕ) → IsValid (new_log maximum_events)
unfolding new_log
new_log-IsValid n = record {
  room = ground arith;
  bounded = omega arith;
  descending = tt;
  short = tt;
}
