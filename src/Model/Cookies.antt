-- ===== src/Model/Cookies.antt =====
-- `SameSite`, `Cookie`, `CookieKey` and the methods of a cookie.
use luck_editor.Prelude.{
  ℕ, ◌+◌, List, [], ◌∷◌, ◌++◌, Bool, true, false, ◌&&◌, ◌||◌, ◌==◌, if◌then◌else◌, map, Option,
  none, some, Ord, ◌=?◌, ordering, cmp_list_refl, cmp_list-eq, cmp_list-gt, cmp_list-lt,
  cmp_list_trans, is_eq, not, list_ord, nat_ord, unwrap_or, is_some, ◌≡◌, arith, Ordering, lt, eq,
  gt, is_empty, get_elem?,
}
use luck_editor.Text.{
  Text, txt, len, trim, to_ascii_lowercase, starts_with, ends_with, strip_prefix, trim_end_matches,
}
use luck_editor.Text.Utf8.{as_bytes}
use luck_editor.OrdMap.{OrdMap}
use luck_editor.Float64.{f64_le, f64_eq}

pub data SameSite : Type 0 where
  none_site lax strict unspecified : SameSite

-- `replace('-', "_")`
unfoldable pub dash_to_underscore : Text → Text
dash_to_underscore = map (λ c. if c == b'-' then b'_' else c)

unfoldable pub from_label : Text → SameSite
unfolding dash_to_underscore
from_label value =
    let label = dash_to_underscore (to_ascii_lowercase (trim value)) in
    if label =? txt "none" || label =? txt "no_restriction" || label =? txt "norestriction"
    then SameSite.none_site
    else if label =? txt "lax"
    then SameSite.lax
    else if label =? txt "strict"
    then SameSite.strict
    else SameSite.unspecified

unfoldable pub as_chrome_str : SameSite → Text
as_chrome_str SameSite.none_site = txt "no_restriction"
as_chrome_str SameSite.lax = txt "lax"
as_chrome_str SameSite.strict = txt "strict"
as_chrome_str SameSite.unspecified = txt "unspecified"

unfoldable pub as_set_cookie_str : SameSite → Option Text
as_set_cookie_str SameSite.none_site = some (txt "None")
as_set_cookie_str SameSite.lax = some (txt "Lax")
as_set_cookie_str SameSite.strict = some (txt "Strict")
as_set_cookie_str SameSite.unspecified = none

-- `==` of the derived `PartialEq`
abbrev pub same_site_eq : SameSite → SameSite → Bool
same_site_eq SameSite.none_site SameSite.none_site = true
same_site_eq SameSite.lax SameSite.lax = true
same_site_eq SameSite.strict SameSite.strict = true
same_site_eq SameSite.unspecified SameSite.unspecified = true
same_site_eq _ _ = false

pub record CookieKey : Type 0 where
  pub store_id : Text
  pub partition_site : Text
  pub domain : Text
  pub path : Text
  pub name : Text

-- The derived order compares the fields in the order of their declaration.
abbrev pub fields : CookieKey → List Text
fields k = k.store_id ∷ k.partition_site ∷ k.domain ∷ k.path ∷ k.name ∷ []

pub fields_injective : (a b : CookieKey) → fields a ≡ fields b → a ≡ b
fields_injective a b h = ground arith

instance abbrev pub key_ord : Ord CookieKey
key_ord = record {
  cmp = λ a b. ordering (fields a) (fields b);
  cmp_refl = λ a. cmp_list_refl (fields a);
  cmp_eq = λ a b h. fields_injective a b (cmp_list-eq (fields a) (fields b) h);
  cmp_gt = λ a b. cmp_list-gt (fields a) (fields b);
  cmp_lt = λ a b. cmp_list-lt (fields a) (fields b);
  cmp_trans = λ a b c. cmp_list_trans (fields a) (fields b) (fields c);
}

pub record Cookie : Type 0 where
  pub name : Text
  pub value : Text
  pub domain : Text
  pub path : Text
  pub secure : Bool
  pub http_only : Bool
  pub same_site : SameSite
  pub expiration_date : Option ℕ
  pub session : Bool
  pub host_only : Bool
  pub store_id : Option Text
  pub partition_site : Option Text
  pub metadata : OrdMap Text Text

-- `==` on `Option<f64>`
unfoldable pub expiration_eq : Option ℕ → Option ℕ → Bool
expiration_eq none none = true
expiration_eq none (some y) = false
expiration_eq (some x) none = false
expiration_eq (some x) (some y) = f64_eq x y

-- `Option<String>`: the order has `None` first.
unfoldable pub cmp_option : Option Text → Option Text → Ordering
cmp_option none none = eq
cmp_option none (some y) = lt
cmp_option (some x) none = gt
cmp_option (some x) (some y) = ordering x y

-- `==` on the metadata: the same entries in the order of the keys.
unfoldable pub metadata_eq : OrdMap Text Text → OrdMap Text Text → Bool
metadata_eq [] [] = true
metadata_eq [] (e ∷ n) = false
metadata_eq (e ∷ m) [] = false
metadata_eq ((j, v) ∷ m) ((k, w) ∷ n) = j =? k && v =? w && metadata_eq m n

abbrev pub bool_eq : Bool → Bool → Bool
bool_eq true b = b
bool_eq false true = false
bool_eq false false = true

-- `==` of the derived `PartialEq`: field by field, the expiration as `f64` compares.
unfoldable pub cookie_eq : Cookie → Cookie → Bool
unfolding expiration_eq cmp_option metadata_eq
cookie_eq a b =
    a.name =? b.name
    && a.value =? b.value
    && a.domain =? b.domain
    && a.path =? b.path
    && bool_eq a.secure b.secure
    && bool_eq a.http_only b.http_only
    && same_site_eq a.same_site b.same_site
    && expiration_eq a.expiration_date b.expiration_date
    && bool_eq a.session b.session
    && bool_eq a.host_only b.host_only
    && is_eq (cmp_option a.store_id b.store_id)
    && is_eq (cmp_option a.partition_site b.partition_site)
    && metadata_eq a.metadata b.metadata

-- `Cookie::new`
unfoldable pub new_cookie : Text → Text → Cookie
new_cookie name value = record {
  name = name;
  value = value;
  domain = [];
  path = txt "/";
  secure = false;
  http_only = false;
  same_site = SameSite.unspecified;
  expiration_date = none;
  session = true;
  host_only = false;
  store_id = none;
  partition_site = none;
  metadata = [];
}

unfoldable pub key : Cookie → CookieKey
key c = record {
  store_id = unwrap_or c.store_id [];
  partition_site = unwrap_or c.partition_site [];
  domain = c.domain;
  path = c.path;
  name = c.name;
}

-- The clock's reading is an argument.
unfoldable pub is_expired_at : Cookie → ℕ → Bool
is_expired_at c now = elim (c.expiration_date) [ none ↦ false | some expiry ↦ f64_le expiry now ]

unfoldable pub is_host_prefix : Cookie → Bool
is_host_prefix c = starts_with (txt "__Host-") c.name

unfoldable pub is_secure_prefix : Cookie → Bool
is_secure_prefix c = starts_with (txt "__Secure-") c.name

unfoldable pub normalized_domain : Cookie → Text
normalized_domain c = unwrap_or (strip_prefix (txt ".") c.domain) c.domain

unfoldable pub domain_matches : Cookie → Text → Bool
unfolding normalized_domain
domain_matches c hostname =
    let cookie_domain = to_ascii_lowercase (trim_end_matches b'.' (normalized_domain c)) in
    let host = to_ascii_lowercase (trim_end_matches b'.' (trim hostname)) in
    host =? cookie_domain || ends_with (txt "." ++ cookie_domain) host

abbrev pub effective_path : Cookie → Text
effective_path c = if is_empty c.path then txt "/" else c.path

-- The last test reads the byte of the request behind the cookie's path.
unfoldable pub path_matches : Cookie → Text → Bool
path_matches c request_path =
    let cookie_path = effective_path c in
    if request_path =? cookie_path
    then true
    else if not (starts_with cookie_path request_path)
    then false
    else (ends_with (txt "/") cookie_path
        || elim (get_elem? (as_bytes request_path) (len cookie_path)) [
          | none ↦ false
          | some b ↦ b == b'/'
        ])

unfoldable pub effective_session : Cookie → Bool
effective_session c = c.session || not (is_some c.expiration_date)

abbrev pub option_len : Option Text → ℕ
option_len none = 0
option_len (some t) = len t

unfoldable pub estimated_bytes : Cookie → ℕ
estimated_bytes c =
    len c.name
    + len c.value
    + len c.domain
    + len c.path
    + option_len c.store_id
    + option_len c.partition_site
