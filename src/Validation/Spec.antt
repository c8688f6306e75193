-- ===== src/Validation/Spec.antt =====
-- The rules on single bytes, labels and times, written without the functions of validation.rs, and
-- the agreement of those functions with them.
use luck_editor.Prelude.{
  ℕ, ◌+◌, ◌≤◌, ◌<◌, zero, suc, List, [], ◌∷◌, Bool, true, false, not, ◌&&◌, ◌||◌, ◌==◌, leb, ltb,
  any, all, length, is_empty, ◌≡◌, refl, arith, ap, Bool-cases, inl, inr,
}
use luck_editor.Text.{Text, txt, len}
use luck_editor.Text.Utf8.{as_bytes}
use luck_editor.Text.Utf8.RoundTrip.{length-as_bytes}
use luck_editor.Float64.{is_nan, is_finite, number_le, f64_le, f64_eq, f64_lt}
use luck_editor.Model.{bool_eq}
use luck_editor.Validation.Rules.{
  is_token_byte, is_ascii_alphanumeric, is_control, label_bytes, is_positive, year_9999,
}

-- The separators of RFC 2616 that are visible.
abbrev separators : Text
separators = txt "()<>@,;:\\\"/[]?={}"

-- A token's byte is visible and no separator.
unfoldable pub is_token : ℕ → Bool
is_token b = leb 0x21 b && leb b 0x7e && not (any (λ x. b == x) separators)

unfoldable pub is_printable : ℕ → Bool
is_printable b = leb 0x20 b && not (b == 0x7f)

abbrev alphabet : Text
alphabet = txt "0123456789ABCDEFGHIJKLMNOPQRSTUVWXYZabcdefghijklmnopqrstuvwxyz"

unfoldable pub is_label_byte : ℕ → Bool
is_label_byte b = any (λ x. b == x) alphabet || b == b'-'

unfoldable pub first_is : ℕ → List ℕ → Bool
first_is x [] = false
first_is x (b ∷ bs) = b == x

unfoldable pub last_is : ℕ → List ℕ → Bool
last_is x [] = false
last_is x (b ∷ []) = b == x
last_is x (b ∷ c ∷ bs) = last_is x (c ∷ bs)

-- One to 63 letters, digits and dashes, with no dash at either end.
unfoldable pub is_label : Text → Bool
unfolding is_label_byte first_is last_is
is_label label =
    not (is_empty label)
    && leb (len label) 63
    && (all is_label_byte (as_bytes label)
        && not (first_is b'-' (as_bytes label))
        && not (last_is b'-' (as_bytes label)))

-- The bits of the numbers above 0 up to 253402300799, the last second of the year 9999: among the
-- numbers above 0, the order of the bits is that of the numbers.
unfoldable pub is_time : ℕ → Bool
is_time bits = ltb 0 bits && leb bits 0x424d_7ffa_20bf_8000

all_below : (ℕ → Bool) → ℕ → Bool
all_below p zero = true
all_below p (suc n) = p n && all_below p n

all_below-true : (p : ℕ → Bool) (n b : ℕ) → all_below p n ≡ true → b < n → p b ≡ true
unfolding all_below
all_below-true p zero b h l = absurd (omega arith)
all_below-true p (suc n) b h l = elim (Bool-cases (b == n)) [
  | inl e ↦ let same : b ≡ n = ground arith in let here : p n ≡ true = ground arith in rw same here
  | inr e ↦ ground (arith, all_below-true p n b)
]

bool_eq-true : (a b : Bool) → bool_eq a b ≡ true → a ≡ b
bool_eq-true a b h = ground arith

token_high : (b : ℕ) → 128 ≤ b → is_token_byte b ≡ is_token b
unfolding is_token_byte is_token
token_high b h = ground arith

token_table : all_below (λ b. bool_eq (is_token_byte b) (is_token b)) 128 ≡ true
unfolding all_below is_token_byte is_token
token_table = refl

token_lem : (b : ℕ) → is_token_byte b ≡ is_token b
token_lem b = elim (Bool-cases (ltb b 128)) [
  | inl low ↦ bool_eq-true (is_token_byte b) (is_token b) (
      all_below-true (λ b. bool_eq (is_token_byte b) (is_token b)) 128 b token_table (ground arith))
  | inr high ↦ token_high b (ground arith)
]

abbrev letter_or_dash : ℕ → Bool
letter_or_dash b = is_ascii_alphanumeric b || b == b'-'

label_byte_high : (b : ℕ) → 128 ≤ b → letter_or_dash b ≡ is_label_byte b
unfolding is_label_byte
label_byte_high b h = ground arith

label_byte_table : all_below (λ b. bool_eq (letter_or_dash b) (is_label_byte b)) 128 ≡ true
unfolding all_below is_label_byte
label_byte_table = refl

label_byte_lem : (b : ℕ) → letter_or_dash b ≡ is_label_byte b
label_byte_lem b = elim (Bool-cases (ltb b 128)) [
  | inl low ↦ bool_eq-true (letter_or_dash b) (is_label_byte b) (
      all_below-true (λ b. bool_eq (letter_or_dash b) (is_label_byte b)) 128 b label_byte_table
        (ground arith))
  | inr high ↦ label_byte_high b (ground arith)
]

all-ext : (p q : ℕ → Bool) → ((b : ℕ) → p b ≡ q b) → (bs : List ℕ) → all p bs ≡ all q bs
all-ext p q h [] = refl
all-ext p q h (b ∷ bs) = rw (h b) (ap (◌&&◌ (q b)) (all-ext p q h bs))

pub all-is_token_byte : (bs : List ℕ) → all is_token_byte bs ≡ all is_token bs
all-is_token_byte = all-ext is_token_byte is_token token_lem

printable_lem : (b : ℕ) → not (is_control b) ≡ is_printable b
unfolding is_printable
printable_lem b = ground arith

pub all-is_control : (bs : List ℕ) → all (λ b. not (is_control b)) bs ≡ all is_printable bs
all-is_control = all-ext (λ b. not (is_control b)) is_printable printable_lem

-- The code's test from an index above 0 on.
label_rest :
    (total index : ℕ) (bs : List ℕ)
    → index + length bs ≡ total
    → 1 ≤ index
    → label_bytes total index bs ≡ (all letter_or_dash bs && not (last_is b'-' bs))
unfolding label_bytes last_is
label_rest total index [] e h = refl
label_rest total index (b ∷ []) e h = ground arith
label_rest total index (b ∷ c ∷ bs) e h =
    ground (arith, label_rest total (index + 1) (c ∷ bs) (omega arith) (omega arith))

label_whole :
    (bs : List ℕ)
    → label_bytes (length bs) 0 bs
      ≡ (all letter_or_dash bs && not (first_is b'-' bs) && not (last_is b'-' bs))
unfolding label_bytes first_is last_is
label_whole [] = refl
label_whole (b ∷ []) = ground arith
label_whole (b ∷ c ∷ bs) =
    ground (arith, label_rest (length (b ∷ c ∷ bs)) 1 (c ∷ bs) (omega arith) (omega arith))

pub label_bytes-as_bytes :
    (label : Text)
    → label_bytes (len label) 0 (as_bytes label) ≡ (
        all is_label_byte (as_bytes label)
        && not (first_is b'-' (as_bytes label))
        && not (last_is b'-' (as_bytes label)))
label_bytes-as_bytes label =
    rw
      (
        ← length-as_bytes label,
        label_whole (as_bytes label),
        all-ext letter_or_dash is_label_byte label_byte_lem (as_bytes label),
      )
      refl

time_low :
    (e : ℕ) → e < 0x8000_0000_0000_0000 → (is_positive e && not (f64_lt year_9999 e)) ≡ is_time e
unfolding is_finite f64_lt f64_le f64_eq is_nan number_le is_time
time_low e h = ground arith

time_high :
    (e : ℕ) → 0x8000_0000_0000_0000 ≤ e → (is_positive e && not (f64_lt year_9999 e)) ≡ is_time e
unfolding is_finite f64_lt f64_le f64_eq is_nan number_le is_time
time_high e h = ground arith

pub is_positive-is_time : (e : ℕ) → (is_positive e && not (f64_lt year_9999 e)) ≡ is_time e
is_positive-is_time e = elim (Bool-cases (ltb e 0x8000_0000_0000_0000)) [
  | inl low ↦ time_low e (ground arith)
  | inr high ↦ time_high e (ground arith)
]
