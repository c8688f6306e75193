-- ===== src/Binary/Strings.antt =====
-- Readings of what stands in the input, and rules to put them together; integers and strings.
use luck_editor.Prelude.{
  ℕ, zero, suc, ◌+◌, ◌%◌, ◌^◌, ◌<◌, ◌≤◌, List, [], ◌∷◌, ◌++◌, Bool, true, false, ltb, ◌≡◌, refl,
  sym, arith, length, take, drop, ap, subst, ◌∙◌, append_assoc, append-nil, length-append,
  take-length-append, drop-length-append, le→ltb_false,
}
use native.Mathlib.Nat.{zero-add, suc-add}
use luck_editor.Text.{Text, len}
use luck_editor.Text.Utf8.{as_bytes, from_utf8}
use luck_editor.Text.Utf8.RoundTrip.{IsText, length-as_bytes, from_utf8-as_bytes}
use luck_editor.Errors.{ok, LuckError}
use luck_editor.Binary.Writer.{to_le_bytes, u32_max}
use luck_editor.Binary.Reader.{
  Reader, M, pure, ◌>>=◌, ◌>>◌, fail_if, continue, take_bytes, from_le_bytes, read_int, read_string,
  usize_max, or_invalid,
}
use luck_editor.Binary.Little.{length-to_le_bytes, from_le_bytes-to_le_bytes}

-- The bytes in front of the reader.
pub record IsAt (r : Reader) (bs : List ℕ) : Type 0 where
  pub front : drop r.position r.input ≡ bs
  pub reach : r.position + length bs ≡ length r.input
  pub fits : length r.input ≤ usize_max

-- Wherever the bytes stand in front of the reader, `p` returns the value and goes behind them.
pub record Reads {A : Type 0} (p : M A) (bs : List ℕ) (a : A) : Type 0 where
  pub run :
      (r : Reader) (rest : List ℕ)
      → IsAt r (bs ++ rest)
      → (r' : Reader) × (p r ≡ ok (a, r')) × IsAt r' rest

drop-nil : (n : ℕ) → ◌≡◌ {A = List ℕ} (drop n []) []
drop-nil zero = refl
drop-nil (suc n) = refl

drop-add : (m n : ℕ) (xs : List ℕ) → drop (m + n) xs ≡ drop n (drop m xs)
drop-add zero n xs = ap (λ k. drop k xs) (zero-add n)
drop-add (suc m) n [] = drop-nil (suc m + n) ∙ sym (drop-nil n)
drop-add (suc m) n (x ∷ xs) = ap (λ k. drop k (x ∷ xs)) (suc-add m n) ∙ drop-add m n xs

take_bytes-ok :
    (r : Reader) (bs rest : List ℕ)
    → IsAt r (bs ++ rest)
    → take_bytes (length bs) r
      ≡ ok (
        take (length bs) (drop r.position r.input),
        record r { position = r.position + length bs },
      )
unfolding take_bytes
take_bytes-ok r bs rest a = ground (arith, length-append bs rest, a.reach, a.fits)

-- `take` returns the bytes that stand in front.
pub Reads-take_bytes : (bs : List ℕ) (n : ℕ) → length bs ≡ n → Reads (take_bytes n) bs bs
Reads-take_bytes bs n e = record {
  run = λ r rest a. (
    record r { position = r.position + n },
    subst (λ k. take_bytes k r ≡ ok (bs, record r { position = r.position + k })) e
        (take_bytes-ok r bs rest a
          ∙ ap (λ x. ok (x, record r { position = r.position + length bs }))
              (ap (take (length bs)) a.front ∙ take-length-append bs rest)),
    record {
      front =
          subst (λ k. drop (r.position + k) r.input ≡ rest) e
            (drop-add r.position (length bs) r.input
              ∙ ap (drop (length bs)) a.front
              ∙ drop-length-append bs rest);
      reach = omega (arith, length-append bs rest, a.reach, e);
      fits = a.fits;
    },
  );
}

pub Reads-pure : {A : Type 0} (a : A) → Reads (pure a) [] a
Reads-pure a = record { run = λ r rest at_. (r, refl, at_) }

-- One reading after another.
pub Reads-bind :
    {A B : Type 0} (p : M A) (f : A → M B) (bs cs : List ℕ) (a : A) (b : B)
    → Reads p bs a
    → Reads (f a) cs b
    → Reads (p >>= f) (bs ++ cs) b
Reads-bind p f bs cs a b first second = record {
  run = λ r rest at_.
      let (r1, e1, at1) = first.run r (cs ++ rest) (subst (IsAt r) (append_assoc bs cs rest) at_) in
      let (r2, e2, at2) = second.run r1 rest at1 in (r2, ap (λ x. continue x f) e1 ∙ e2, at2);
}

-- The last reading of a block, and the value made of it.
pub Reads-last :
    {A B : Type 0} (p : M A) (f : A → B) (bs : List ℕ) (a : A) (b : B)
    → Reads p bs a
    → f a ≡ b
    → Reads (p >>= λ x. pure (f x)) bs b
Reads-last p f bs a b h e = record {
  run = λ r rest at_.
      let (r1, e1, at1) = h.run r rest at_ in
      (r1, ap (λ x. continue x (λ y. pure (f y))) e1 ∙ ap (λ y. ok (y, r1)) e, at1);
}

-- A test that does not fail reads nothing.
pub Reads-fail_if :
    {B : Type 0} (test : Bool) (e : LuckError) (k : M B) (bs : List ℕ) (b : B)
    → test ≡ false
    → Reads k bs b
    → Reads (fail_if test e >> k) bs b
Reads-fail_if true e k bs b h second = cc
Reads-fail_if false e k bs b h second = second

-- An integer that fits its width is read as itself.
pub Reads-read_int : (w n : ℕ) → n < 256 ^ w → Reads (read_int w) (to_le_bytes w n) n
unfolding read_int
Reads-read_int w n h =
    Reads-last (take_bytes w) from_le_bytes (to_le_bytes w n) (to_le_bytes w n) n
      (Reads-take_bytes (to_le_bytes w n) w (length-to_le_bytes w n))
      (from_le_bytes-to_le_bytes w n h)

-- What `put_string` writes.
unfoldable pub string_bytes : Text → List ℕ
string_bytes t = to_le_bytes 4 (len t % 2 ^ 32) ++ as_bytes t

Reads-or_invalid : (t : Text) → IsText t → Reads (or_invalid (from_utf8 (as_bytes t))) [] t
Reads-or_invalid t h = rw (from_utf8-as_bytes t h) (Reads-pure t)

-- A text of scalar values, no longer than the limit and than 32 bits can count, is read as itself.
pub Reads-read_string :
    (maximum : ℕ) (t : Text)
    → IsText t
    → len t ≤ maximum
    → len t ≤ u32_max
    → Reads (read_string maximum) (string_bytes t) t
unfolding read_string string_bytes
Reads-read_string maximum t h l m =
    let e : len t % 2 ^ 32 ≡ len t = omega arith in
    rw e (
      Reads-bind (read_int 4) _ (to_le_bytes 4 (len t)) (as_bytes t) (len t) t
        (Reads-read_int 4 (len t) (omega arith))
        (Reads-fail_if (ltb maximum (len t)) _ _ (as_bytes t) t (le→ltb_false maximum (len t) l) (
          subst (λ bs. Reads (take_bytes (len t) >>= λ x. or_invalid (from_utf8 x)) bs t)
            (append-nil (as_bytes t))
            (Reads-bind (take_bytes (len t)) (λ x. or_invalid (from_utf8 x)) (as_bytes t) []
              (as_bytes t) t (Reads-take_bytes (as_bytes t) (len t) (length-as_bytes t))
              (Reads-or_invalid t h)))))
