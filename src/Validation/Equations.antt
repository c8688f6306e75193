-- ===== src/Validation/Equations.antt =====
-- A report without errors, after each rule.
use Prim.Native.String.{String}
use luck_editor.Prelude.{
  ℕ, ◌+◌, List, [], ◌∷◌, ◌++◌, Bool, true, false, not, ◌&&◌, ◌||◌, ◌==◌, ltb, any, all, is_some,
  ◌≡◌, refl, sym, ◌∙◌, ap, arith, Bool-cases, inl, inr,
}
use luck_editor.Text.{Text, txt, starts_with, strip_prefix, contains, split_pieces}
use luck_editor.Text.Utf8.{as_bytes, encode_char}
use luck_editor.Errors.{Message}
use luck_editor.Validation.{
  ValidationReport, is_error, is_valid, push_error, push_warning, when, find_byte, is_control,
  is_line_break,
}

-- An error makes the report invalid, a warning leaves it as it is.
any-push :
    {A : Type 0} (p : A → Bool) (xs : List A) (x : A)
    → not (any p (xs ++ (x ∷ []))) ≡ (not (any p xs) && not (p x))
any-push p [] x = ground arith
any-push p (y ∷ ys) x = ground (arith, any-push p ys x)

and_false : (b : Bool) → (b && false) ≡ false
and_false true = refl
and_false false = refl

and_true : (b : Bool) → (b && true) ≡ b
and_true true = refl
and_true false = refl

pub is_valid-push_error :
    (code field : String) (message : Message) (report : ValidationReport)
    → is_valid (push_error code field message report) ≡ false
unfolding is_valid push_error push_warning when
is_valid-push_error code field message report = any-push is_error report.issues _ ∙ and_false _

pub is_valid-push_warning :
    (code field : String) (message : Message) (report : ValidationReport)
    → is_valid (push_warning code field message report) ≡ is_valid report
unfolding is_valid push_error push_warning when
is_valid-push_warning code field message report = any-push is_error report.issues _ ∙ and_true _

pub is_valid-when_error :
    (b : Bool) (code field : String) (message : Message) (report : ValidationReport)
    → is_valid (when b (push_error code field message) report) ≡ (is_valid report && not b)
unfolding is_valid push_error push_warning when
is_valid-when_error true code field message report =
    is_valid-push_error code field message report ∙ sym (and_false _)
is_valid-when_error false code field message report = sym (and_true _)

pub is_valid-when_warning :
    (b : Bool) (code field : String) (message : Message) (report : ValidationReport)
    → is_valid (when b (push_warning code field message) report) ≡ is_valid report
unfolding is_valid push_error push_warning when
is_valid-when_warning true code field message report =
    is_valid-push_warning code field message report
is_valid-when_warning false code field message report = refl

-- A byte is found exactly if not all bytes fail the test.
pub find_byte-all :
    (p : ℕ → Bool) (offset : ℕ) (bs : List ℕ)
    → not (is_some (find_byte p offset bs)) ≡ all (λ b. not (p b)) bs
unfolding find_byte
find_byte-all p offset [] = refl
find_byte-all p offset (b ∷ bs) = ground (arith, find_byte-all p (offset + 1) bs)

all-append_false : (p : ℕ → Bool) (xs ys : List ℕ) → all p ys ≡ false → all p (xs ++ ys) ≡ false
all-append_false p [] ys h = h
all-append_false p (x ∷ xs) ys h = rw (all-append_false p xs ys h) (and_false (p x))

or_right : (a b : Bool) → a ≡ false → (a || b) ≡ true → b ≡ true
or_right false b e h = h
or_right true b e h = absurd cc

-- A line break is a control character of one byte.
pub line_break-control :
    (t : Text) → any is_line_break t ≡ true → all (λ b. not (is_control b)) (as_bytes t) ≡ false
unfolding as_bytes encode_char
line_break-control [] h = absurd cc
line_break-control (c ∷ t) h = elim (Bool-cases (is_line_break c)) [
  | inl e ↦
      let one : ltb c 0x80 ≡ true = ground arith in
      let control : is_control c ≡ true = ground arith in rw one (rw control refl)
  | inr e ↦
      all-append_false (λ b. not (is_control b)) (encode_char c) (as_bytes t)
        (line_break-control t (or_right (is_line_break c) _ e h))
]

-- Two dots in a row leave an empty label behind the first.
pub contains-split :
    (ok_label : Text → Bool) (t : Text)
    → ok_label [] ≡ false
    → contains (txt "..") t ≡ true
    → all ok_label (split_pieces b'.' t).1 ≡ false
unfolding contains starts_with strip_prefix split_pieces
contains-split ok_label [] n h = absurd cc
contains-split ok_label (c ∷ t) n h = elim (Bool-cases (c == b'.')) [
  | inl e ↦ rw e (behind_dot t (contains-split ok_label t n) (dotted e h))
  | inr e ↦
      rw e (contains-split ok_label t n (or_right (starts_with (txt "..") (c ∷ t)) _ (rw e refl) h))
]
  where
    dotted :
        (c == b'.') ≡ true
        → contains (txt "..") (c ∷ t) ≡ true
        → (starts_with (txt ".") t || contains (txt "..") t) ≡ true
    dotted e h =
        let q : starts_with (txt "..") (c ∷ t) ≡ starts_with (txt ".") t = rw e refl in
        sym (ap (λ b. b || contains (txt "..") t) q) ∙ h

    behind_dot :
        (t : Text)
        → (contains (txt "..") t ≡ true → all ok_label (split_pieces b'.' t).1 ≡ false)
        → (starts_with (txt ".") t || contains (txt "..") t) ≡ true
        → (ok_label (split_pieces b'.' t).0 && all ok_label (split_pieces b'.' t).1) ≡ false
    behind_dot [] ih h = absurd cc
    behind_dot (d ∷ t) ih h = elim (Bool-cases (d == b'.')) [
      | inl e ↦ rw (e, n) refl
      | inr e ↦
          let later = ih (or_right (starts_with (txt ".") (d ∷ t)) _ (rw e refl) h) in
          rw later (and_false _)
    ]
