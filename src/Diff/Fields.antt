-- ===== src/Diff/Fields.antt =====
-- Comparisons of cookies: a cookie with no NaN equals itself, and a change seen one way is seen
-- the other way.
use luck_editor.Prelude.{
  ℕ, [], ◌∷◌, Bool, true, false, Option, none, some, ◌≡◌, refl, arith, =?_refl, =?_comm, is_eq,
  list_ord, nat_ord,
}
use luck_editor.Float64.{is_nan}
use luck_editor.Float64.Laws.{f64_eq_refl, f64_eq_comm, f64_eq_nan}
use luck_editor.OrdMap.{OrdMap}
use luck_editor.Text.{Text}
use luck_editor.Model.{
  Cookie, SameSite, same_site_eq, bool_eq, expiration_eq, cmp_option, metadata_eq, cookie_eq,
}
use luck_editor.Diff.Compute.{changed_fields}

-- The expiration, if there is one, is a number.
abbrev pub has_nan : Cookie → Bool
has_nan c = elim (c.expiration_date) [ none ↦ false | some x ↦ is_nan x ]

abbrev pub HasNumber : Cookie → Type 0
HasNumber c = has_nan c ≡ false

pub metadata_eq_refl : (m : OrdMap Text Text) → metadata_eq m m ≡ true
unfolding metadata_eq
metadata_eq_refl [] = refl
metadata_eq_refl ((k, v) ∷ m) = ground (arith, =?_refl k, =?_refl v, metadata_eq_refl m)

metadata_eq_comm : (m n : OrdMap Text Text) → metadata_eq m n ≡ metadata_eq n m
unfolding metadata_eq
metadata_eq_comm [] [] = refl
metadata_eq_comm [] (e ∷ n) = refl
metadata_eq_comm (e ∷ m) [] = refl
metadata_eq_comm ((j, v) ∷ m) ((k, w) ∷ n) = rw (=?_comm j k, =?_comm v w, metadata_eq_comm m n)

pub cmp_option_refl : (a : Option Text) → is_eq (cmp_option a a) ≡ true
unfolding cmp_option
cmp_option_refl none = refl
cmp_option_refl (some x) = =?_refl x

cmp_option_comm : (a b : Option Text) → is_eq (cmp_option a b) ≡ is_eq (cmp_option b a)
unfolding cmp_option
cmp_option_comm none none = refl
cmp_option_comm none (some y) = refl
cmp_option_comm (some x) none = refl
cmp_option_comm (some x) (some y) = =?_comm x y

pub same_site_eq_refl : (s : SameSite) → same_site_eq s s ≡ true
same_site_eq_refl s = ground arith

same_site_eq_comm : (s t : SameSite) → same_site_eq s t ≡ same_site_eq t s
same_site_eq_comm s t = ground arith

pub bool_eq_refl : (a : Bool) → bool_eq a a ≡ true
bool_eq_refl a = ground arith

bool_eq_comm : (a b : Bool) → bool_eq a b ≡ bool_eq b a
bool_eq_comm a b = ground arith

expiration_eq_comm : (a b : Option ℕ) → expiration_eq a b ≡ expiration_eq b a
unfolding expiration_eq
expiration_eq_comm none none = refl
expiration_eq_comm none (some y) = refl
expiration_eq_comm (some x) none = refl
expiration_eq_comm (some x) (some y) = f64_eq_comm x y

expiration_eq_refl :
    (c : Cookie) → HasNumber c → expiration_eq c.expiration_date c.expiration_date ≡ true
unfolding expiration_eq
expiration_eq_refl c h = go c.expiration_date h
  where
    go :
        (o : Option ℕ)
        → (elim o [ none ↦ false | some x ↦ is_nan x ]) ≡ false
        → expiration_eq o o ≡ true
    go none h = refl
    go (some x) h = f64_eq_refl x h

expiration_eq_nan :
    (c : Cookie) (o : Option ℕ) → has_nan c ≡ true → expiration_eq c.expiration_date o ≡ false
unfolding expiration_eq
expiration_eq_nan c o h = go c.expiration_date o h
  where
    go :
        (e o : Option ℕ)
        → (elim e [ none ↦ false | some x ↦ is_nan x ]) ≡ true
        → expiration_eq e o ≡ false
    go none o h = cc
    go (some x) none h = refl
    go (some x) (some y) h = f64_eq_nan x y h

-- A cookie whose expiration is no NaN equals itself.
pub cookie_eq_refl : (c : Cookie) → HasNumber c → cookie_eq c c ≡ true
unfolding cookie_eq
cookie_eq_refl c h = rw (
  =?_refl c.name,
  =?_refl c.value,
  =?_refl c.domain,
  =?_refl c.path,
  bool_eq_refl c.secure,
  bool_eq_refl c.http_only,
  same_site_eq_refl c.same_site,
  expiration_eq_refl c h,
  bool_eq_refl c.session,
  bool_eq_refl c.host_only,
  cmp_option_refl c.store_id,
  cmp_option_refl c.partition_site,
  metadata_eq_refl c.metadata,
)

-- A cookie whose expiration is a NaN equals no cookie.
pub cookie_eq_nan : (c d : Cookie) → has_nan c ≡ true → cookie_eq c d ≡ false
unfolding cookie_eq
cookie_eq_nan c d h = ground (arith, expiration_eq_nan c d.expiration_date h)

pub changed_fields_comm : (b a : Cookie) → changed_fields b a ≡ changed_fields a b
unfolding changed_fields
changed_fields_comm b a = rw (
  =?_comm b.value a.value,
  bool_eq_comm b.secure a.secure,
  bool_eq_comm b.http_only a.http_only,
  same_site_eq_comm b.same_site a.same_site,
  expiration_eq_comm b.expiration_date a.expiration_date,
  bool_eq_comm b.session a.session,
  bool_eq_comm b.host_only a.host_only,
  cmp_option_comm b.partition_site a.partition_site,
  metadata_eq_comm b.metadata a.metadata,
)
