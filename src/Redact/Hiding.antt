-- ===== src/Redact/Hiding.antt =====
-- What the redacted text tells of the value.
use luck_editor.Prelude.{
  ℕ, ◌-◌, [], ◌∷◌, Bool, true, false, is_empty, length, take, drop, replicate, min, max, ◌≡◌, refl,
  arith, ap,
}
use luck_editor.Text.{Text}
use luck_editor.Redact.{RedactionMode, Redactor, edges, redact_value}

abbrev pub uses_hash : RedactionMode → Bool
uses_hash RedactionMode.hash_like = true
uses_hash _ = false

is_empty-length : (v w : Text) → length v ≡ length w → is_empty v ≡ is_empty w
is_empty-length [] [] h = refl
is_empty-length [] (x ∷ w) h = absurd (omega arith)
is_empty-length (x ∷ v) [] h = absurd (omega arith)
is_empty-length (x ∷ v) (y ∷ w) h = refl

edges-same :
    (v w : Text) (n r : ℕ)
    → length v ≡ length w
    → take n v ≡ take n w
    → drop (length v - n) v ≡ drop (length w - n) w
    → edges v n r ≡ edges w n r
unfolding edges
edges-same v w n r l t d = rw (is_empty-length v w l, t, d, l) refl

-- In every mode but the hash, the redacted text tells no more of a value than its length and its
-- visible edges: two values that agree in these are redacted alike.
pub redact_value-hides :
    (r : Redactor) (v w : Text)
    → uses_hash r.mode ≡ false
    → length v ≡ length w
    → take r.visible_edge_characters v ≡ take r.visible_edge_characters w
    → drop (length v - r.visible_edge_characters) v ≡ drop (length w - r.visible_edge_characters) w
    → redact_value r v ≡ redact_value r w
unfolding redact_value
redact_value-hides r v w h l t d = go r.mode h
  where
    go :
        (m : RedactionMode)
        → uses_hash m ≡ false
        → redact_value (record r { mode = m }) v ≡ redact_value (record r { mode = m }) w
    go RedactionMode.full g = ap (λ n. replicate (min (max n 4) 64) r.replacement) l
    go RedactionMode.empty g = refl
    go RedactionMode.keep_edges g = edges-same v w r.visible_edge_characters r.replacement l t d
    go RedactionMode.hash_like g = absurd (ground arith)
