-- ===== src/Tests/Others.antt =====
-- Paths, canonical cookies, the domain index, the audit log and duplicates at concrete inputs.
use luck_editor.Prelude.{
  ℕ, ◌+◌, ◌≤◌, ◌<◌, List, [], ◌∷◌, true, not, ◌&&◌, ◌||◌, none, some, ◌≡◌, refl, arith, cmp_list,
  length, take, any, All, ◌=?◌, list_ord, nat_ord,
}
use luck_editor.OrdMap.{contains_key, lookup, insert}
use luck_editor.Text.{
  Text, txt, starts_with, ends_with, strip_prefix, split, split_pieces, join, join_tail, trim,
  drop_while, to_ascii_lowercase, is_whitespace, lower,
}
use luck_editor.Model.{
  Cookie, key_ord, key, effective_session, deduplicate_last_wins, retain_unseen,
}
use luck_editor.Model.Dedup.{deduplicate_last_wins_lem}
use luck_editor.Diff.Maps.{find_last, IsDistinct}
use luck_editor.Canonical.Paths.{normalize_path, print_path, path_segments, keep_segments, prefixed}
use luck_editor.Canonical.Segments.{IsSegment}
use luck_editor.Canonical.Normal.{normalize_path_lem, normalize_path-normalize_path}
use luck_editor.Canonical.Changes.{default_config}
use luck_editor.Canonical.Steps.{canonicalize}
use luck_editor.Canonical.Conform.{conforms, canonicalize-conforms}
use luck_editor.DomainIndex.{
  DomainIndex, normalize_domain, build, remove_cookie, replace, empty_index, insert_cookie,
  insert_all,
}
use luck_editor.DomainIndex.Build.{holds, stands, flag_of, build-holds, build-flags_lem}
use luck_editor.DomainIndex.Remove.{IsFull, Reach, Reach-IsFull, remove_cookie_lem, replace_lem}
use luck_editor.Audit.{AuditOperation, Entry, new_log, record_event, record_all, events_of, u64_max}
use luck_editor.Audit.Record.{
  HasRoom, IsValid, new_log-IsValid, record_all_lem, record_event-IsValid,
}
use luck_editor.Redact.{default_redactor, redact_value}
use luck_editor.Redact.Hiding.{redact_value-hides}
use luck_editor.Tests.Data.{sid, sid2, lang}

abbrev path : Text
path = txt "a/./b//../c/"

normal : normalize_path path 8 ≡ txt "/a/c/"
unfolding normalize_path keep_segments print_path prefixed path_segments split split_pieces
    starts_with ends_with strip_prefix cmp_list join join_tail
normal = refl

-- Above the limit the rest of the path goes.
limited : normalize_path path 1 ≡ txt "/a/"
unfolding normalize_path keep_segments print_path prefixed path_segments split split_pieces
    starts_with ends_with strip_prefix cmp_list join join_tail
limited = refl

normalize_path_lem_example :
    (ss : List Text) × (normalize_path (txt "a/./b//../c/") 8
      ≡ print_path (ends_with (txt "/") (txt "a/./b//../c/")) ss)
    × All IsSegment ss
    × (length ss ≤ 8)
    × (path_segments (normalize_path (txt "a/./b//../c/") 8) 8 ≡ ss)
normalize_path_lem_example = normalize_path_lem (txt "a/./b//../c/") 8

normalize_path-normalize_path_example :
    normalize_path (normalize_path (txt "a/./b//../c/") 8) 8 ≡ normalize_path (txt "a/./b//../c/") 8
normalize_path-normalize_path_example = normalize_path-normalize_path (txt "a/./b//../c/") 8

abbrev host_cookie : Cookie
host_cookie = record sid { name = txt "__Host-x" }

canonicalize-conforms_example : conforms (canonicalize default_config host_cookie).0 ≡ true
canonicalize-conforms_example = canonicalize-conforms default_config host_cookie refl refl refl

build-holds_example :
    holds (build (sid ∷ lang ∷ [])) (txt "example.com") (key lang)
    ≡ any (stands (txt "example.com") (key lang)) (sid ∷ lang ∷ [])
build-holds_example = build-holds (sid ∷ lang ∷ []) (txt "example.com") (key lang)

is_held : holds (build (sid ∷ lang ∷ [])) (txt "example.com") (key lang) ≡ true
unfolding build insert_all insert_cookie normalize_domain key lookup insert cmp_list trim drop_while
    to_ascii_lowercase is_whitespace lower
is_held = refl

build-flags_lem_example :
    (contains_key (key sid) (build (sid ∷ [])).host_only
      ≡ flag_of (λ c. c.host_only) (find_last (key sid) none (sid ∷ [])))
    × (contains_key (key sid) (build (sid ∷ [])).secure
        ≡ flag_of (λ c. c.secure) (find_last (key sid) none (sid ∷ [])))
    × (contains_key (key sid) (build (sid ∷ [])).http_only
        ≡ flag_of (λ c. c.http_only) (find_last (key sid) none (sid ∷ [])))
    × (contains_key (key sid) (build (sid ∷ [])).session
        ≡ flag_of effective_session (find_last (key sid) none (sid ∷ [])))
build-flags_lem_example = build-flags_lem (sid ∷ []) (key sid)

abbrev index : DomainIndex
index = build (sid ∷ lang ∷ [])

remove_cookie_lem_example :
    ((remove_cookie index sid).0 ≡ holds index (normalize_domain sid.domain) (key sid))
    × (holds (remove_cookie index sid).1 (txt "example.com") (key lang) ≡ (
        not (stands (txt "example.com") (key lang) sid)
        && holds index (txt "example.com") (key lang)))
    × (contains_key (key lang) (remove_cookie index sid).1.host_only
        ≡ (not (key lang =? key sid) && contains_key (key lang) index.host_only))
    × (contains_key (key lang) (remove_cookie index sid).1.secure
        ≡ (not (key lang =? key sid) && contains_key (key lang) index.secure))
    × (contains_key (key lang) (remove_cookie index sid).1.http_only
        ≡ (not (key lang =? key sid) && contains_key (key lang) index.http_only))
    × (contains_key (key lang) (remove_cookie index sid).1.session
        ≡ (not (key lang =? key sid) && contains_key (key lang) index.session))
remove_cookie_lem_example = remove_cookie_lem index sid (txt "example.com") (key lang)

replace_lem_example : holds (replace index sid lang) (txt "example.com") (key lang) ≡ (
    (not (stands (txt "example.com") (key lang) sid) && holds index (txt "example.com") (key lang))
    || stands (txt "example.com") (key lang) lang)
replace_lem_example = replace_lem index sid lang (txt "example.com") (key lang)

Reach-IsFull_example : IsFull (remove_cookie (insert_cookie empty_index sid) sid).1.domains
Reach-IsFull_example = Reach-IsFull (Reach.removed sid (Reach.inserted sid Reach.start))

deduplicate_last_wins_lem_example :
    IsDistinct (deduplicate_last_wins (sid ∷ lang ∷ sid2 ∷ [])).1
    × (find_last (key sid) none (deduplicate_last_wins (sid ∷ lang ∷ sid2 ∷ [])).1
        ≡ find_last (key sid) none (sid ∷ lang ∷ sid2 ∷ []))
    × ((deduplicate_last_wins (sid ∷ lang ∷ sid2 ∷ [])).0
          + length (deduplicate_last_wins (sid ∷ lang ∷ sid2 ∷ [])).1
        ≡ length (sid ∷ lang ∷ sid2 ∷ []))
deduplicate_last_wins_lem_example = deduplicate_last_wins_lem (sid ∷ lang ∷ sid2 ∷ []) (key sid)

last_wins : deduplicate_last_wins (sid ∷ lang ∷ sid2 ∷ []) ≡ (1, lang ∷ sid2 ∷ [])
unfolding deduplicate_last_wins retain_unseen key lookup insert cmp_list
last_wins = refl

abbrev entry : ℕ → Entry
entry n = record {
  operation = AuditOperation.add_;
  domain = none;
  count = n;
  success = true;
  detail = some (txt "one");
  now_millis = n;
}

room : HasRoom (new_log 2)
unfolding new_log
room = omega arith

record_all_lem_example :
    (record_all (new_log 2) (entry 1 ∷ entry 2 ∷ entry 3 ∷ [])).events
    ≡ take
        (new_log 2).maximum_events
        (events_of (new_log 2).next_id (entry 1 ∷ entry 2 ∷ entry 3 ∷ []) [])
unfolding new_log
record_all_lem_example = record_all_lem (new_log 2) (entry 1 ∷ entry 2 ∷ entry 3 ∷ []) [] room refl

below : (new_log 2).next_id < u64_max
unfolding new_log
below = omega arith

record_event-IsValid_example : IsValid (record_event (new_log 2) (entry 1)).0
record_event-IsValid_example = record_event-IsValid (new_log 2) (entry 1) (new_log-IsValid 2) below

-- Two values that differ in the middle.
redact_value-hides_example :
    redact_value default_redactor (txt "abc-secret-xyz")
    ≡ redact_value default_redactor (txt "abc-hidden-xyz")
redact_value-hides_example =
    redact_value-hides default_redactor (txt "abc-secret-xyz") (txt "abc-hidden-xyz") refl refl refl
      refl
