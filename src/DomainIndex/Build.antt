-- ===== src/DomainIndex/Build.antt =====
-- What a built index holds.
use luck_editor.Prelude.{
  [], ◌∷◌, Bool, false, ◌||◌, ◌&&◌, if◌then◌else◌, Option, none, some, any, ◌=?◌, list_ord, nat_ord,
  ◌≡◌, refl, arith, ap, ◌∙◌, sym, Bool-cases, inl, inr, =?_comm, =?_eq,
}
use luck_editor.OrdMap.{OrdMap, OrdSet, lookup, insert, contains_key, add}
use luck_editor.OrdMap.Laws.{lookup-insert, lookup-remove}
use luck_editor.Text.{Text}
use luck_editor.Model.{Cookie, CookieKey, CookieCollection, key_ord, key, effective_session}
use luck_editor.Diff.Maps.{find_last}
use luck_editor.DomainIndex.{
  DomainIndex, normalize_domain, set_membership, keys_at, empty_index, insert_cookie, insert_all,
  build,
}

abbrev pub holds : DomainIndex → Text → CookieKey → Bool
holds index d k = contains_key k (keys_at index.domains d)

pub contains-add :
    (j k : CookieKey) (s : OrdSet CookieKey)
    → contains_key j (add k s) ≡ (j =? k || contains_key j s)
contains-add j k s = ground (arith, lookup-insert j k tt s)

-- The cookie stands for the key under the domain.
abbrev pub stands : Text → CookieKey → Cookie → Bool
stands d k c = normalize_domain c.domain =? d && key c =? k

pub keys_at-insert :
    (d e : Text) (s : OrdSet CookieKey) (m : OrdMap Text (OrdSet CookieKey))
    → keys_at (insert e s m) d ≡ (if d =? e then s else keys_at m d)
keys_at-insert d e s m = ground (arith, lookup-insert d e s m)

-- A key more under a domain.
contains-keys_at :
    (d e : Text) (k j : CookieKey) (m : OrdMap Text (OrdSet CookieKey))
    → contains_key k (keys_at (insert e (add j (keys_at m e)) m) d)
      ≡ (contains_key k (keys_at m d) || (e =? d && j =? k))
contains-keys_at d e k j m =
    ap (contains_key k) (keys_at-insert d e (add j (keys_at m e)) m) ∙ elim (Bool-cases (d =? e)) [
      | inl h ↦
          rw (h, sym (=?_comm d e))
            (contains-add k j (keys_at m e)
              ∙ (ground (arith, =?_comm j k, ap (λ x. contains_key k (keys_at m x)) (=?_eq d e h))))
      | inr h ↦ rw (h, sym (=?_comm d e)) (ground arith)
    ]

pub insert_cookie-holds :
    (index : DomainIndex) (c : Cookie) (d : Text) (k : CookieKey)
    → holds (insert_cookie index c) d k ≡ (holds index d k || stands d k c)
unfolding insert_cookie
insert_cookie-holds index c d k =
    contains-keys_at d (normalize_domain c.domain) k (key c) index.domains

insert_all-holds :
    (index : DomainIndex) (cs : CookieCollection) (d : Text) (k : CookieKey)
    → holds (insert_all index cs) d k ≡ (holds index d k || any (stands d k) cs)
unfolding insert_all
insert_all-holds index [] d k = ground arith
insert_all-holds index (c ∷ cs) d k =
    ground (arith, insert_all-holds (insert_cookie index c) cs d k, insert_cookie-holds index c d k)

-- A built index holds a key under a domain exactly if some cookie of the collection has the key,
-- and its domain, normalized, is this one.
pub build-holds :
    (cs : CookieCollection) (d : Text) (k : CookieKey) → holds (build cs) d k ≡ any (stands d k) cs
unfolding build lookup
build-holds cs d k = insert_all-holds empty_index cs d k

-- The flag of the last cookie with the key, false where there is none.
abbrev pub flag_of : (Cookie → Bool) → Option Cookie → Bool
flag_of f none = false
flag_of f (some c) = f c

contains-set_membership :
    (j k : CookieKey) (b : Bool) (s : OrdSet CookieKey)
    → contains_key j (set_membership s k b) ≡ (if j =? k then b else contains_key j s)
unfolding set_membership
contains-set_membership j k b s = ground (arith, lookup-insert j k tt s, lookup-remove j k s)

-- A set of the index follows a flag of the cookies.
pub record Follows (set : DomainIndex → OrdSet CookieKey) (f : Cookie → Bool) : Type 0 where
  pub at_insert :
      (index : DomainIndex) (c : Cookie)
      → set (insert_cookie index c) ≡ set_membership (set index) (key c) (f c)
  pub at_start : set empty_index ≡ []

insert_all-flags :
    (set : DomainIndex → OrdSet CookieKey) (f : Cookie → Bool)
    → Follows set f
    → (index : DomainIndex) (acc : Option Cookie) (cs : CookieCollection) (k : CookieKey)
    → contains_key k (set index) ≡ flag_of f acc
    → contains_key k (set (insert_all index cs)) ≡ flag_of f (find_last k acc cs)
unfolding insert_all find_last
insert_all-flags set f h index acc [] k e = e
insert_all-flags set f h index acc (c ∷ cs) k e =
    insert_all-flags set f h (insert_cookie index c) (if k =? key c then some c else acc) cs k (
      ap (contains_key k) (h.at_insert index c)
      ∙ (contains-set_membership k (key c) (f c) (set index) ∙ ground arith))

build-flags :
    (set : DomainIndex → OrdSet CookieKey) (f : Cookie → Bool)
    → Follows set f
    → (cs : CookieCollection) (k : CookieKey)
    → contains_key k (set (build cs)) ≡ flag_of f (find_last k none cs)
unfolding build
build-flags set f h cs k =
    insert_all-flags set f h empty_index none cs k
      (ap (contains_key k) h.at_start ∙ (unfold lookup in refl))

Follows-host_only : Follows (λ i. i.host_only) (λ c. c.host_only)
Follows-host_only = record { at_insert = λ i c. (unfold insert_cookie in refl); at_start = refl }

Follows-secure : Follows (λ i. i.secure) (λ c. c.secure)
Follows-secure = record { at_insert = λ i c. (unfold insert_cookie in refl); at_start = refl }

Follows-http_only : Follows (λ i. i.http_only) (λ c. c.http_only)
Follows-http_only = record { at_insert = λ i c. (unfold insert_cookie in refl); at_start = refl }

Follows-session : Follows (λ i. i.session) effective_session
Follows-session = record { at_insert = λ i c. (unfold insert_cookie in refl); at_start = refl }

-- In a built index each of the four sets holds a key exactly if the last cookie of the collection
-- with the key has the flag: host-only, secure, HttpOnly, or a session by its effect.
pub build-flags_lem :
    (cs : CookieCollection) (k : CookieKey)
    → (contains_key k (build cs).host_only ≡ flag_of (λ c. c.host_only) (find_last k none cs))
      × (contains_key k (build cs).secure ≡ flag_of (λ c. c.secure) (find_last k none cs))
      × (contains_key k (build cs).http_only ≡ flag_of (λ c. c.http_only) (find_last k none cs))
      × (contains_key k (build cs).session ≡ flag_of effective_session (find_last k none cs))
build-flags_lem cs k = (
  build-flags (λ i. i.host_only) (λ c. c.host_only) Follows-host_only cs k,
  build-flags (λ i. i.secure) (λ c. c.secure) Follows-secure cs k,
  build-flags (λ i. i.http_only) (λ c. c.http_only) Follows-http_only cs k,
  build-flags (λ i. i.session) effective_session Follows-session cs k,
)
