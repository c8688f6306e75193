-- ===== src/Diff/Loops.antt =====
-- The loops of `apply_diff` on a diff of two maps: no step meets a conflict, and the map that they
-- leave is read entry by entry.
use luck_editor.Prelude.{
  ◌+◌, List, [], ◌∷◌, true, none, some, length, is_some, is_empty, ◌≡◌, arith, All, foldl, ◌∙◌,
  Bool-cases, Option-cases, inl, inr, sym, ≺_ne_sym, subst,
}
use luck_editor.OrdMap.{OrdMap, lookup, insert, remove}
use luck_editor.OrdMap.Laws.{lookup-insert, lookup-remove}
use luck_editor.OrdMap.Order.{IsSorted, Above}
use luck_editor.Model.{Cookie, CookieKey, key_ord, key, cookie_eq}
use luck_editor.Diff.Compute.{CookieModification, changed_fields}
use luck_editor.Diff.Apply.{
  ConflictStrategy, ApplyState, do_remove, do_modify, do_add, remove_step, modify_step, add_step,
}
use luck_editor.Diff.Maps.{IsKeyed}
use luck_editor.Diff.Scan.{added_of, modified_of, removed_of, change_of}

abbrev pub CookieMap : Type 0
CookieMap = OrdMap CookieKey Cookie

-- The maps that the three loops leave.
unfoldable pub remove_all : List Cookie → CookieMap → CookieMap
remove_all [] n = n
remove_all (c ∷ cs) n = remove_all cs (remove (key c) n)

unfoldable pub modify_all : List CookieModification → CookieMap → CookieMap
modify_all [] n = n
modify_all (c ∷ cs) n = modify_all cs (insert c.key c.after n)

unfoldable pub add_all : List Cookie → CookieMap → CookieMap
add_all [] n = n
add_all (c ∷ cs) n = add_all cs (insert (key c) c n)

abbrev pub IsSelfEqual : CookieMap → Type 0
IsSelfEqual = All (λ e. cookie_eq e.1 e.1 ≡ true)

-- The entries of `m` stand in `n`.
abbrev pub StandIn : CookieMap → CookieMap → Type 0
StandIn n = All (λ e. lookup e.0 n ≡ some e.1)

-- `n` and `before` agree at the keys of `m`.
abbrev pub AgreeAt : CookieMap → CookieMap → CookieMap → Type 0
AgreeAt n before = All (λ e. lookup e.0 n ≡ lookup e.0 before)

-- What `before` lacks of the keys of `m`, `n` lacks too.
abbrev pub AbsentAt : CookieMap → CookieMap → CookieMap → Type 0
AbsentAt n before = All (λ e. lookup e.0 before ≡ none → lookup e.0 n ≡ none)

module _ (strategy : ConflictStrategy) where
  remove_step_lem :
      (s : ApplyState) (c : Cookie)
      → lookup (key c) s.map ≡ some c
      → cookie_eq c c ≡ true
      → remove_step strategy s c ≡ do_remove (key c) s
  unfolding remove_step
  remove_step_lem s c h e = ground arith

  pub modify_step_lem :
      (s : ApplyState) (change : CookieModification)
      → lookup change.key s.map ≡ some change.before
      → cookie_eq change.before change.before ≡ true
      → modify_step strategy s change ≡ do_modify change s
  unfolding modify_step
  modify_step_lem s change h e = ground arith

  add_step_lem :
      (s : ApplyState) (c : Cookie)
      → lookup (key c) s.map ≡ none
      → add_step strategy s c ≡ do_add c s
  unfolding add_step
  add_step_lem s c h = ground arith

  StandIn-remove :
      (k : CookieKey) (n m : CookieMap) → Above k m → StandIn n m → StandIn (remove k n) m
  StandIn-remove k n [] a h = tt
  StandIn-remove k n ((j, c) ∷ m) (b, a) (h, hs) =
      (rw (lookup-remove, ≺_ne_sym k j b) h, StandIn-remove k n m a hs)

  AgreeAt-insert :
      (k : CookieKey) (c : Cookie) (n before m : CookieMap)
      → Above k m
      → AgreeAt n before m
      → AgreeAt (insert k c n) before m
  AgreeAt-insert k c n before [] a h = tt
  AgreeAt-insert k c n before ((j, d) ∷ m) (b, a) (h, hs) =
      (rw (lookup-insert, ≺_ne_sym k j b) h, AgreeAt-insert k c n before m a hs)

  AbsentAt-insert :
      (k : CookieKey) (c : Cookie) (n before m : CookieMap)
      → Above k m
      → AbsentAt n before m
      → AbsentAt (insert k c n) before m
  AbsentAt-insert k c n before [] a h = tt
  AbsentAt-insert k c n before ((j, d) ∷ m) (b, a) (h, hs) =
      (λ e. rw (lookup-insert, ≺_ne_sym k j b) (h e), AbsentAt-insert k c n before m a hs)

  pub remove_loop :
      (after m : CookieMap) (s : ApplyState)
      → IsKeyed m
      → IsSorted m
      → IsSelfEqual m
      → StandIn s.map m
      → foldl (remove_step strategy) s (removed_of after m) ≡ record s {
        map = remove_all (removed_of after m) s.map;
        removed = s.removed + length (removed_of after m);
      }
  unfolding removed_of remove_all do_remove
  remove_loop after [] s k o e h = ground arith
  remove_loop after ((j, c) ∷ m) s (k, ks) (a, o) (e, es) (h, hs) =
      elim (Bool-cases (is_some (lookup j after))) [
        | inl kept ↦ rw (kept, removed_of) (remove_loop after m s ks o es hs)
        | inr gone ↦
            let a' = subst (λ x. Above x m) (sym k) a in
            ground (
              arith,
              remove_step_lem s c (subst (λ x. lookup x s.map ≡ some c) (sym k) h) e,
              remove_loop after m (do_remove (key c) s) ks o es
                  (StandIn-remove (key c) s.map m a' hs),
            )
      ]

  pub modify_loop :
      (before m : CookieMap) (s : ApplyState)
      → IsSorted m
      → ((k : CookieKey) (b : Cookie) → lookup k before ≡ some b → cookie_eq b b ≡ true)
      → AgreeAt s.map before m
      → foldl (modify_step strategy) s (modified_of before m) ≡ record s {
        map = modify_all (modified_of before m) s.map;
        modified = s.modified + length (modified_of before m);
      }
  unfolding modified_of modify_all do_modify
  modify_loop before [] s o e h = ground arith
  modify_loop before ((j, c) ∷ m) s (a, o) e (h, hs) = elim (Option-cases (lookup j before)) [
    | inl miss ↦ rw (miss, modified_of) (modify_loop before m s o e hs)
    | inr (b, hit) ↦ elim (Bool-cases (is_empty (changed_fields b c))) [
      | inl same ↦ ground (arith, modify_loop before m s o e hs)
      | inr changed ↦ ground (
        arith,
        modify_step_lem s (change_of j b c) (h ∙ hit) (e j b hit),
        modify_loop before m (do_modify (change_of j b c) s) o e
            (AgreeAt-insert j c s.map before m a hs),
      )
    ]
  ]

  pub add_loop :
      (before m : CookieMap) (s : ApplyState)
      → IsKeyed m
      → IsSorted m
      → AbsentAt s.map before m
      → foldl (add_step strategy) s (added_of before m) ≡ record s {
        map = add_all (added_of before m) s.map;
        added = s.added + length (added_of before m);
      }
  unfolding added_of add_all do_add
  add_loop before [] s k o h = ground arith
  add_loop before ((j, c) ∷ m) s (k, ks) (a, o) (h, hs) =
      elim (Bool-cases (is_some (lookup j before))) [
        | inl old ↦ rw (old, added_of) (add_loop before m s ks o hs)
        | inr new ↦
            let a' = subst (λ x. Above x m) (sym k) a in
            ground (
              arith,
              add_step_lem s c (subst (λ x. lookup x s.map ≡ none) (sym k) (h (ground arith))),
              add_loop before m (do_add c s) ks o (AbsentAt-insert (key c) c s.map before m a' hs),
            )
      ]
