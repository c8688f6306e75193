-- ===== src/Binary/Metadata.antt =====
-- The metadata of a cookie: its entries are read back in their order.
use luck_editor.Prelude.{
  ℕ, List, [], ◌∷◌, ◌++◌, false, ◌≡◌, refl, arith, length, ◌≤◌, All, ◌≺◌, list_ord, nat_ord,
  append_assoc, append-nil,
}
use luck_editor.OrdMap.{OrdMap, lookup, insert, contains_key}
use luck_editor.OrdMap.Order.{IsSorted, Above}
use luck_editor.Text.{Text, len}
use luck_editor.Text.Utf8.RoundTrip.{IsText}
use luck_editor.Binary.Writer.{u32_max}
use luck_editor.Binary.Reader.{read_string}
use luck_editor.Binary.Codec.{BinaryLimits, read_metadata}
use luck_editor.Binary.Strings.{
  Reads, Reads-pure, Reads-bind, Reads-fail_if, Reads-read_string, string_bytes,
}

-- A string that the limits and the format can hold.
abbrev pub Fits : BinaryLimits → Text → Type 0
Fits limits t = IsText t × (len t ≤ limits.maximum_string_bytes) × (len t ≤ u32_max)

abbrev pub EntriesFit : BinaryLimits → OrdMap Text Text → Type 0
EntriesFit limits = All (λ e. Fits limits e.0 × Fits limits e.1)

-- What `put_metadata` writes.
unfoldable pub metadata_bytes : OrdMap Text Text → List ℕ
metadata_bytes [] = []
metadata_bytes ((k, v) ∷ m) = string_bytes k ++ (string_bytes v ++ metadata_bytes m)

above-head :
    (j k : Text) (v : Text) (acc m : OrdMap Text Text) → Above j (acc ++ ((k, v) ∷ m)) → j ≺ k
above-head j k v [] m (h, a) = h
above-head j k v (e ∷ acc) m (h, a) = above-head j k v acc m a

-- A key above all others goes to the end.
insert_last :
    (k v : Text) (acc m : OrdMap Text Text)
    → IsSorted (acc ++ ((k, v) ∷ m))
    → (insert k v acc ≡ acc ++ ((k, v) ∷ [])) × (contains_key k acc ≡ false)
unfolding insert lookup
insert_last k v [] m s = (refl, refl)
insert_last k v ((j, w) ∷ acc) m (a, s) =
    let (e, f) = insert_last k v acc m s in
    let gt_ = list_ord.cmp_lt j k (above-head j k v acc m a) in (ground arith, ground arith)

pub Reads-read_metadata :
    (limits : BinaryLimits) (acc m : OrdMap Text Text)
    → IsSorted (acc ++ m)
    → EntriesFit limits m
    → Reads (read_metadata limits (length m) acc) (metadata_bytes m) (acc ++ m)
unfolding read_metadata metadata_bytes
Reads-read_metadata limits acc [] s h = rw (append-nil acc) (Reads-pure acc)
Reads-read_metadata limits acc ((k, v) ∷ m) s (((tk, lk, uk), (tv, lv, uv)), hs) =
    let (e, f) = insert_last k v acc m s in
    let max_ = limits.maximum_string_bytes in
    let assoc : (acc ++ ((k, v) ∷ [])) ++ m ≡ acc ++ ((k, v) ∷ m) =
      append_assoc acc ((k, v) ∷ []) m in
    let rest = Reads-read_metadata limits (acc ++ ((k, v) ∷ [])) m (rw assoc s) hs in
    Reads-bind (read_string max_) _ (string_bytes k) (string_bytes v ++ metadata_bytes m) k
      (acc ++ ((k, v) ∷ m)) (Reads-read_string max_ k tk lk uk)
      (Reads-bind (read_string max_) _ (string_bytes v) (metadata_bytes m) v (acc ++ ((k, v) ∷ m))
        (Reads-read_string max_ v tv lv uv)
        (Reads-fail_if (contains_key k acc) _ _ (metadata_bytes m) (acc ++ ((k, v) ∷ m)) f
          (rw (e, ← assoc) rest)))
