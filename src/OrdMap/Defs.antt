-- ===== src/OrdMap/Defs.antt =====
-- A map is the list of its entries in ascending order of the keys; a set is a map to `Unit`.
use luck_editor.Prelude.{
  List, [], ◌∷◌, Option, none, some, Bool, true, false, Ord, ◌=?◌, lt, eq, gt, if◌then◌else◌,
  is_some, ◌&&◌,
}

abbrev pub OrdMap {ℓ κ} : Type ℓ → Type κ → Type (ℓ ⊔ κ)
OrdMap K V = List (K × V)

module _ {ℓ κ} {K : Type ℓ} {V : Type κ} ⦃o : Ord K⦄ where
  -- `get`
  unfoldable pub lookup : K → OrdMap K V → Option V
  lookup k [] = none
  lookup k ((j, v) ∷ m) = if k =? j then some v else lookup k m

  -- `insert`
  unfoldable pub insert : K → V → OrdMap K V → OrdMap K V
  insert k v [] = (k, v) ∷ []
  insert k v ((j, w) ∷ m) = elim (o.cmp k j) [
    | lt ↦ (k, v) ∷ (j, w) ∷ m
    | eq ↦ (j, v) ∷ m
    | gt ↦ (j, w) ∷ insert k v m
  ]

  -- `remove`: no entry with the key stays
  unfoldable pub remove : K → OrdMap K V → OrdMap K V
  remove k [] = []
  remove k ((j, w) ∷ m) = if k =? j then remove k m else (j, w) ∷ remove k m

  abbrev pub contains_key : K → OrdMap K V → Bool
  contains_key k m = is_some (lookup k m)

module _ {ℓ κ} {K : Type ℓ} {V : Type κ} where
  -- `values`, in the order of the keys
  unfoldable pub values : OrdMap K V → List V
  values [] = []
  values ((k, v) ∷ m) = v ∷ values m

  unfoldable pub keys : OrdMap K V → List K
  keys [] = []
  keys ((k, v) ∷ m) = k ∷ keys m

abbrev pub OrdSet {ℓ} : Type ℓ → Type ℓ
OrdSet K = OrdMap K (Unit {0})

module _ {ℓ} {K : Type ℓ} ⦃o : Ord K⦄ where
  abbrev pub add : K → OrdSet K → OrdSet K
  add k s = insert k tt s

  -- `extend`
  unfoldable pub extend : OrdSet K → List K → OrdSet K
  extend s [] = s
  extend s (k ∷ ks) = extend (add k s) ks

  -- `==` on sets
  unfoldable pub set_eq : OrdSet K → OrdSet K → Bool
  set_eq [] [] = true
  set_eq [] (e ∷ t) = false
  set_eq (e ∷ s) [] = false
  set_eq ((a, _) ∷ s) ((b, _) ∷ t) = (a =? b) && set_eq s t
