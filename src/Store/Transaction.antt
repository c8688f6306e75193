-- ===== src/Store/Transaction.antt =====
-- `CookieTransaction`: a base collection, a working copy and the log of its operations. A method
-- that returns a value returns it behind the new transaction.
use luck_editor.Prelude.{
  ℕ, ◌-◌, List, [], ◌∷◌, ◌++◌, Bool, true, not, if◌then◌else◌, Option, none, some, map, find,
  filter, any, length, ◌=?◌, is_some,
}
use luck_editor.Model.{Cookie, CookieKey, CookieCollection, key_ord, key}

pub data TransactionOperation : Type 0 where
  insert : CookieKey → TransactionOperation
  replace : CookieKey → TransactionOperation
  remove : CookieKey → TransactionOperation
  clear : TransactionOperation

pub record CookieTransaction : Type 0 where
  pub base_revision : ℕ
  pub base : CookieCollection
  pub working : CookieCollection
  pub operations : List TransactionOperation
  pub closed : Bool

-- `get`: the first cookie with the key
unfoldable pub transaction_get : CookieTransaction → CookieKey → Option Cookie
transaction_get t k = find (λ c. key c =? k) t.working

-- `position` and `remove(position)`: the vector without the first cookie with the key
unfoldable pub remove_first : CookieKey → CookieCollection → CookieCollection
remove_first k [] = []
remove_first k (c ∷ cs) = if key c =? k then cs else c ∷ remove_first k cs

unfoldable pub transaction_insert : CookieTransaction → Cookie → CookieTransaction × Option Cookie
unfolding remove_first
transaction_insert t c =
    let previous = find (λ entry. key entry =? key c) t.working in
    (
      record t {
        working = remove_first (key c) t.working ++ (c ∷ []);
        operations =
            t.operations
            ++ ((if is_some previous
                  then TransactionOperation.replace (key c)
                  else TransactionOperation.insert (key c))
                ∷ []);
      },
      previous,
    )

unfoldable pub transaction_remove :
    CookieTransaction → CookieKey → CookieTransaction × Option Cookie
unfolding remove_first
transaction_remove t k = elim (find (λ c. key c =? k) t.working) [
  | none ↦ (t, none)
  | some removed ↦ (
    record t {
      working = remove_first k t.working;
      operations = t.operations ++ (TransactionOperation.remove k ∷ []);
    },
    some removed,
  )
]

-- `retain`, with a predicate that keeps no state of its own
unfoldable pub transaction_retain : CookieTransaction → (Cookie → Bool) → CookieTransaction × ℕ
transaction_retain t predicate =
    let removed_keys = map key (filter (λ c. not (predicate c)) t.working) in
    let kept = filter (λ c. not (any (λ k. k =? key c) removed_keys)) t.working in
    (
      record t {
        working = kept;
        operations = t.operations ++ map TransactionOperation.remove removed_keys;
      },
      length t.working - length kept,
    )

unfoldable pub transaction_clear : CookieTransaction → CookieTransaction × ℕ
transaction_clear t = (
  record t { working = []; operations = t.operations ++ (TransactionOperation.clear ∷ []) },
  length t.working,
)

unfoldable pub replace_collection : CookieTransaction → CookieCollection → CookieTransaction
replace_collection t collection = record t {
  working = collection;
  operations = t.operations ++ (TransactionOperation.clear ∷ []);
}

unfoldable pub abort : CookieTransaction → CookieTransaction
abort t = record t { closed = true }
