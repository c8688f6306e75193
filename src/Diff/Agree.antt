-- ===== src/Diff/Agree.antt =====
-- The agreement of two cookies field by field, and what a comparison without a changed field says
-- of it.
use luck_editor.Prelude.{
  ℕ, [], ◌∷◌, List, Bool, true, false, ◌&&◌, Option, none, some, unwrap_or, ◌≡◌, refl, ap, arith,
  is_eq, =?_eq, ◌=?◌, ◌⊎◌, inl, inr, list_ord, nat_ord, Option-cases, if◌then◌else◌, is_empty,
}
use luck_editor.Float64.{magnitude, f64_eq}
use luck_editor.OrdMap.{OrdMap, lookup}
use luck_editor.OrdMap.Laws.{lookup-All}
use luck_editor.Text.{Text}
use luck_editor.Model.{
  Cookie, CookieKey, SameSite, key_ord, key, same_site_eq, bool_eq, expiration_eq, cmp_option,
  metadata_eq,
}
use luck_editor.Diff.Compute.{CookieField, push_unless, changed_fields}
use luck_editor.Diff.Maps.{IsKeyed}
use luck_editor.Diff.Loops.{CookieMap}

-- The same bits, or both a zero of either sign.
abbrev pub SameExpiration : Option ℕ → Option ℕ → Type 0
SameExpiration none none = Unit {0}
SameExpiration none (some y) = ⊥
SameExpiration (some x) none = ⊥
SameExpiration (some x) (some y) = (x ≡ y) ⊎ ((magnitude x ≡ 0) × (magnitude y ≡ 0))

-- Equal in every field, an absent store identifier taken for an empty one.
pub record SameFields (b a : Cookie) : Type 0 where
  pub name : b.name ≡ a.name
  pub value : b.value ≡ a.value
  pub domain : b.domain ≡ a.domain
  pub path : b.path ≡ a.path
  pub secure : b.secure ≡ a.secure
  pub http_only : b.http_only ≡ a.http_only
  pub same_site : b.same_site ≡ a.same_site
  pub expiration_date : SameExpiration b.expiration_date a.expiration_date
  pub session : b.session ≡ a.session
  pub host_only : b.host_only ≡ a.host_only
  pub store_id : unwrap_or b.store_id [] ≡ unwrap_or a.store_id []
  pub partition_site : b.partition_site ≡ a.partition_site
  pub metadata : b.metadata ≡ a.metadata

bool_eq-true : (a b : Bool) → bool_eq a b ≡ true → a ≡ b
bool_eq-true a b h = ground arith

same_site_eq-true : (a b : SameSite) → same_site_eq a b ≡ true → a ≡ b
same_site_eq-true a b h = ground arith

cmp_option-eq : (a b : Option Text) → is_eq (cmp_option a b) ≡ true → a ≡ b
unfolding cmp_option
cmp_option-eq none none h = refl
cmp_option-eq none (some y) h = absurd cc
cmp_option-eq (some x) none h = absurd cc
cmp_option-eq (some x) (some y) h = ap some (=?_eq x y h)

and_true : (a b : Bool) → (a && b) ≡ true → (a ≡ true) × (b ≡ true)
and_true a b h = ground arith

metadata_eq-true : (m n : OrdMap Text Text) → metadata_eq m n ≡ true → m ≡ n
unfolding metadata_eq
metadata_eq-true [] [] h = refl
metadata_eq-true [] (e ∷ n) h = absurd cc
metadata_eq-true (e ∷ m) [] h = absurd cc
metadata_eq-true ((j, v) ∷ m) ((k, w) ∷ n) h =
    let (heads, rest) = and_true (j =? k && v =? w) (metadata_eq m n) h in
    let (names, texts) = and_true (j =? k) (v =? w) heads in
    rw (=?_eq j k names, =?_eq v w texts, metadata_eq-true m n rest) refl

expiration_eq-SameExpiration : (a b : Option ℕ) → expiration_eq a b ≡ true → SameExpiration a b
unfolding expiration_eq f64_eq
expiration_eq-SameExpiration none none h = tt
expiration_eq-SameExpiration none (some y) h = absurd cc
expiration_eq-SameExpiration (some x) none h = absurd cc
expiration_eq-SameExpiration (some x) (some y) h = ground arith

push_unless-nil :
    (same : Bool) (f : CookieField) (rest : List CookieField)
    → push_unless same f rest ≡ []
    → (same ≡ true) × (rest ≡ [])
push_unless-nil true f rest h = (refl, h)
push_unless-nil false f rest h = absurd cc

-- Without a changed field, cookies of one key agree.
pub changed_fields-SameFields :
    (b a : Cookie) → changed_fields b a ≡ [] → key b ≡ key a → SameFields b a
unfolding changed_fields key
changed_fields-SameFields b a h same_key =
    let (value, h1) = push_unless-nil _ _ _ h in
    let (secure, h2) = push_unless-nil _ _ _ h1 in
    let (http_only, h3) = push_unless-nil _ _ _ h2 in
    let (same_site, h4) = push_unless-nil _ _ _ h3 in
    let (expiration, h5) = push_unless-nil _ _ _ h4 in
    let (session, h6) = push_unless-nil _ _ _ h5 in
    let (host_only, h7) = push_unless-nil _ _ _ h6 in
    let (partition, h8) = push_unless-nil _ _ _ h7 in
    let (metadata, h9) = push_unless-nil _ _ _ h8 in
    record {
      name = ap (λ k. k.name) same_key;
      value = =?_eq b.value a.value value;
      domain = ap (λ k. k.domain) same_key;
      path = ap (λ k. k.path) same_key;
      secure = bool_eq-true b.secure a.secure secure;
      http_only = bool_eq-true b.http_only a.http_only http_only;
      same_site = same_site_eq-true b.same_site a.same_site same_site;
      expiration_date = expiration_eq-SameExpiration b.expiration_date a.expiration_date expiration;
      session = bool_eq-true b.session a.session session;
      host_only = bool_eq-true b.host_only a.host_only host_only;
      store_id = ap (λ k. k.store_id) same_key;
      partition_site = cmp_option-eq b.partition_site a.partition_site partition;
      metadata = metadata_eq-true b.metadata a.metadata metadata;
    }

SameExpiration-refl : (a : Option ℕ) → SameExpiration a a
SameExpiration-refl none = tt
SameExpiration-refl (some x) = inl refl

pub SameFields-refl : (a : Cookie) → SameFields a a
SameFields-refl a = record {
  name = refl;
  value = refl;
  domain = refl;
  path = refl;
  secure = refl;
  http_only = refl;
  same_site = refl;
  expiration_date = SameExpiration-refl a.expiration_date;
  session = refl;
  host_only = refl;
  store_id = refl;
  partition_site = refl;
  metadata = refl;
}

-- Two lookups find nothing, or cookies that agree.
abbrev pub Unchanged : Option Cookie → Option Cookie → Type 0
Unchanged none none = Unit {0}
Unchanged none (some a) = ⊥
Unchanged (some r) none = ⊥
Unchanged (some r) (some a) = SameFields r a

-- A cookie that was found has the key it was looked up by.
abbrev pub HasKey : CookieKey → Option Cookie → Type 0
HasKey k none = Unit {0}
HasKey k (some c) = key c ≡ k

pub lookup-HasKey : (k : CookieKey) (m : CookieMap) → IsKeyed m → HasKey k (lookup k m)
lookup-HasKey k m h = elim (Option-cases (lookup k m)) [
  | inl miss ↦ rw miss tt
  | inr (c, hit) ↦ rw hit (lookup-All (λ e. key e.1 ≡ e.0) k c m h hit)
]

-- What stays where no field changed, and what replaces it elsewhere, agree with the goal.
pub if_changed-Unchanged :
    (fs : List CookieField) (b a : Cookie)
    → changed_fields b a ≡ fs
    → key b ≡ key a
    → Unchanged (if is_empty fs then some b else some a) (some a)
if_changed-Unchanged [] b a h e = changed_fields-SameFields b a h e
if_changed-Unchanged (f ∷ fs) b a h e = SameFields-refl a
