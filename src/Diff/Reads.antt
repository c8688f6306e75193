-- ===== src/Diff/Reads.antt =====
-- What the maps left by the loops of `apply_diff` hold at each key.
use luck_editor.Prelude.{
  List, [], ◌∷◌, if◌then◌else◌, Option, none, some, is_empty, ◌≡◌, refl, arith, All, =?_eq,
  Option-cases, inl, inr,
}
use luck_editor.OrdMap.{lookup, insert, remove}
use luck_editor.OrdMap.Laws.{lookup-insert, lookup-remove, All-insert, All-remove}
use luck_editor.OrdMap.Order.{IsSorted, lookup-Above, insert-IsSorted, remove-IsSorted}
use luck_editor.Model.{Cookie, CookieKey, key_ord, key}
use luck_editor.Diff.Compute.{CookieModification, changed_fields}
use luck_editor.Diff.Maps.{IsKeyed}
use luck_editor.Diff.Scan.{added_of, modified_of, removed_of, change_of}
use luck_editor.Diff.Loops.{CookieMap, remove_all, modify_all, add_all}

-- The value of a key after the removals, from its values in the two maps and before the removals.
abbrev pub after_removals : Option Cookie → Option Cookie → Option Cookie → Option Cookie
after_removals none after old = old
after_removals (some b) none old = none
after_removals (some b) (some a) old = old

abbrev pub after_changes : Option Cookie → Option Cookie → Option Cookie → Option Cookie
after_changes none after old = old
after_changes (some b) none old = old
after_changes (some b) (some a) old = if is_empty (changed_fields b a) then old else some a

abbrev pub after_additions : Option Cookie → Option Cookie → Option Cookie → Option Cookie
after_additions (some b) after old = old
after_additions none none old = old
after_additions none (some a) old = some a

pub lookup-remove_all :
    (k : CookieKey) (after m n : CookieMap)
    → IsKeyed m
    → lookup k (remove_all (removed_of after m) n)
      ≡ after_removals (lookup k m) (lookup k after) (lookup k n)
unfolding lookup removed_of remove_all
lookup-remove_all k after [] n h = refl
lookup-remove_all k after ((j, c) ∷ m) n (h, hs) = ground (
  arith,
  lookup-remove_all k after m n hs,
  lookup-remove_all k after m (remove (key c) n) hs,
  lookup-remove k (key c) n,
  =?_eq k j,
)

pub lookup-modify_all :
    (k : CookieKey) (before m n : CookieMap)
    → IsSorted m
    → lookup k (modify_all (modified_of before m) n)
      ≡ after_changes (lookup k before) (lookup k m) (lookup k n)
unfolding lookup modified_of modify_all change_of
lookup-modify_all k before [] n s = ground arith
lookup-modify_all k before ((j, c) ∷ m) n (a, s) = ground (
  arith,
  lookup-modify_all k before m n s,
  lookup-modify_all k before m (insert j c n) s,
  lookup-insert k j c n,
  lookup-Above j m a,
  =?_eq k j,
)

pub lookup-add_all :
    (k : CookieKey) (before m n : CookieMap)
    → IsKeyed m
    → IsSorted m
    → lookup k (add_all (added_of before m) n)
      ≡ after_additions (lookup k before) (lookup k m) (lookup k n)
unfolding lookup added_of add_all
lookup-add_all k before [] n h s = ground arith
lookup-add_all k before ((j, c) ∷ m) n (h, hs) (a, s) = ground (
  arith,
  lookup-add_all k before m n hs s,
  lookup-add_all k before m (insert (key c) c n) hs s,
  lookup-insert k (key c) c n,
  lookup-Above j m a,
  =?_eq k j,
)

-- The loops keep the maps in order, and every cookie at its key.
pub remove_all-IsSorted :
    (cs : List Cookie) (n : CookieMap) → IsSorted n → IsSorted (remove_all cs n)
unfolding remove_all
remove_all-IsSorted [] n s = s
remove_all-IsSorted (c ∷ cs) n s =
    remove_all-IsSorted cs (remove (key c) n) (remove-IsSorted (key c) n s)

pub modify_all-IsSorted :
    (cs : List CookieModification) (n : CookieMap) → IsSorted n → IsSorted (modify_all cs n)
unfolding modify_all
modify_all-IsSorted [] n s = s
modify_all-IsSorted (c ∷ cs) n s =
    modify_all-IsSorted cs (insert c.key c.after n) (insert-IsSorted c.key c.after n s)

pub add_all-IsSorted : (cs : List Cookie) (n : CookieMap) → IsSorted n → IsSorted (add_all cs n)
unfolding add_all
add_all-IsSorted [] n s = s
add_all-IsSorted (c ∷ cs) n s =
    add_all-IsSorted cs (insert (key c) c n) (insert-IsSorted (key c) c n s)

pub remove_all-IsKeyed : (cs : List Cookie) (n : CookieMap) → IsKeyed n → IsKeyed (remove_all cs n)
unfolding remove_all
remove_all-IsKeyed [] n h = h
remove_all-IsKeyed (c ∷ cs) n h =
    remove_all-IsKeyed cs (remove (key c) n) (All-remove (λ e. key e.1 ≡ e.0) (key c) n h)

pub add_all-IsKeyed : (cs : List Cookie) (n : CookieMap) → IsKeyed n → IsKeyed (add_all cs n)
unfolding add_all
add_all-IsKeyed [] n h = h
add_all-IsKeyed (c ∷ cs) n h =
    add_all-IsKeyed cs (insert (key c) c n) (All-insert (λ e. key e.1 ≡ e.0) (key c) c n refl h)

pub modify_all-IsKeyed :
    (cs : List CookieModification) (n : CookieMap)
    → All (λ d. key d.after ≡ d.key) cs
    → IsKeyed n
    → IsKeyed (modify_all cs n)
unfolding modify_all
modify_all-IsKeyed [] n k h = h
modify_all-IsKeyed (c ∷ cs) n (k, ks) h =
    modify_all-IsKeyed cs (insert c.key c.after n) ks
      (All-insert (λ e. key e.1 ≡ e.0) c.key c.after n k h)

pub modified_of-keys :
    (before m : CookieMap) → IsKeyed m → All (λ d. key d.after ≡ d.key) (modified_of before m)
unfolding modified_of
modified_of-keys before [] h = tt
modified_of-keys before ((j, c) ∷ m) (h, hs) = elim (Option-cases (lookup j before)) [
  | inl miss ↦ ground (arith, modified_of-keys before m hs)
  | inr (b, hit) ↦ ground (arith, modified_of-keys before m hs)
]
