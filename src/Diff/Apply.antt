-- ===== src/Diff/Apply.antt =====
-- `apply_diff`: the removals, the modifications and the additions in turn, each checked against
-- the map that it meets.
use luck_editor.Prelude.{
  ℕ, ◌+◌, List, [], ◌∷◌, ◌++◌, Bool, true, false, if◌then◌else◌, none, some, foldl,
}
use luck_editor.OrdMap.{OrdMap, lookup, insert, remove, contains_key, values}
use luck_editor.Errors.{Message, msg}
use luck_editor.Model.{Cookie, CookieKey, CookieCollection, key_ord, key, cookie_eq, sort_stable}
use luck_editor.Diff.Compute.{CookieModification, CookieDiff, collection_map}

pub data ConflictStrategy : Type 0 where
  reject prefer_base prefer_diff : ConflictStrategy

pub record DiffConflict : Type 0 where
  pub key : CookieKey
  pub message : Message

-- The variables of `apply_diff` that its loops change.
pub record ApplyState : Type 0 where
  pub map : OrdMap CookieKey Cookie
  pub added : ℕ
  pub removed : ℕ
  pub modified : ℕ
  pub conflicts : List DiffConflict

pub record ApplyDiffReport : Type 0 where
  pub collection : CookieCollection
  pub added : ℕ
  pub removed : ℕ
  pub modified : ℕ
  pub conflicts : List DiffConflict

abbrev pub prefers_diff : ConflictStrategy → Bool
prefers_diff ConflictStrategy.prefer_diff = true
prefers_diff _ = false

-- `register_conflict`: the conflict is recorded, and the answer is whether to apply the change.
unfoldable pub register_conflict :
    ApplyState → CookieKey → Message → ConflictStrategy → ApplyState × Bool
register_conflict s k message strategy = (
  record s { conflicts = s.conflicts ++ (record { key = k; message = message } ∷ []) },
  prefers_diff strategy,
)

-- The bodies of the branches.
unfoldable pub do_remove : CookieKey → ApplyState → ApplyState
do_remove k s = record s { map = remove k s.map; removed = s.removed + 1 }

unfoldable pub do_modify : CookieModification → ApplyState → ApplyState
do_modify change s = record s {
  map = insert change.key change.after s.map;
  modified = s.modified + 1;
}

unfoldable pub do_add : Cookie → ApplyState → ApplyState
do_add c s = record s { map = insert (key c) c s.map; added = s.added + 1 }

unfoldable pub remove_step : ConflictStrategy → ApplyState → Cookie → ApplyState
unfolding register_conflict do_remove
remove_step strategy s c = elim (lookup (key c) s.map) [
  | some existing ↦
      if cookie_eq existing c
      then do_remove (key c) s
      else (let (s', apply) =
            register_conflict s (key c) (msg "remove precondition does not match base cookie")
              strategy in
          if apply then do_remove (key c) s' else s')
  | none ↦ (register_conflict s (key c) (msg "cookie to remove is absent") strategy).0
]

unfoldable pub modify_step : ConflictStrategy → ApplyState → CookieModification → ApplyState
unfolding register_conflict do_modify
modify_step strategy s change = elim (lookup change.key s.map) [
  | some existing ↦
      if cookie_eq existing change.before
      then do_modify change s
      else (let (s', apply) =
            register_conflict s change.key (msg "modify precondition does not match base cookie")
              strategy in
          if apply then do_modify change s' else s')
  | none ↦
      let (s', apply) =
        register_conflict s change.key (msg "cookie to modify is absent") strategy in
      if apply then do_modify change s' else s'
]

unfoldable pub add_step : ConflictStrategy → ApplyState → Cookie → ApplyState
unfolding register_conflict do_add
add_step strategy s c =
    if contains_key (key c) s.map
    then (let (s', apply) =
          register_conflict s (key c) (msg "cookie to add already exists") strategy in
        if apply then do_add c s' else s')
    else do_add c s

unfoldable pub run_steps : ConflictStrategy → CookieDiff → ApplyState → ApplyState
unfolding remove_step modify_step add_step
run_steps strategy d s =
    foldl (add_step strategy)
      (foldl (modify_step strategy) (foldl (remove_step strategy) s d.removed) d.modified) d.added

unfoldable pub apply_diff : CookieCollection → CookieDiff → ConflictStrategy → ApplyDiffReport
unfolding run_steps
apply_diff base d strategy =
    let s = run_steps strategy d (record {
      map = collection_map base;
      added = 0;
      removed = 0;
      modified = 0;
      conflicts = [];
    }) in
    record {
      collection = sort_stable (values s.map);
      added = s.added;
      removed = s.removed;
      modified = s.modified;
      conflicts = s.conflicts;
    }
