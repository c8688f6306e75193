-- ===== src/Validation/Conforming.antt =====
-- The rules on a cookie as one test.
use luck_editor.Prelude.{
  ℕ, Bool, true, false, not, ◌&&◌, ◌||◌, ◌==◌, leb, if◌then◌else◌, any, all, is_empty, is_some,
  Option, none, some, ◌=?◌, list_ord, nat_ord,
}
use luck_editor.Text.{
  Text, txt, len, starts_with, split, to_ascii_lowercase, trim_end_matches, trim_start_matches,
}
use luck_editor.Text.Utf8.{as_bytes}
use luck_editor.Model.{Cookie, SameSite}
use luck_editor.Platform.{Platform}
use luck_editor.Validation.{ValidationConfig}
use luck_editor.Validation.Spec.{is_token, is_printable, is_label, is_time}

-- The name is a token, the value and the path have no control character.
abbrev pub name_conforms : Cookie → ValidationConfig → Bool
name_conforms c config =
    not (is_empty c.name)
    && leb (len c.name) config.maximum_name_bytes
    && all is_token (as_bytes c.name)

abbrev pub value_conforms : Cookie → ValidationConfig → Bool
value_conforms c config =
    leb (len c.value) config.maximum_value_bytes && all is_printable (as_bytes c.value)

-- No domain, where none is needed; or an address, the local host, or a name of proper labels.
abbrev pub host_conforms : Platform → Text → Bool
host_conforms platform host =
    not (is_empty host)
    && (platform.is_ipv4 host
        || platform.is_ipv6 host
        || to_ascii_lowercase host =? txt "localhost"
        || all is_label (split b'.' host))

abbrev pub domain_conforms : Platform → Cookie → ValidationConfig → Bool
domain_conforms platform c config =
    if is_empty c.domain
    then not config.require_domain
    else leb (len c.domain) config.maximum_domain_bytes
      && host_conforms platform (trim_end_matches b'.' (trim_start_matches b'.' c.domain))

abbrev pub path_conforms : Cookie → ValidationConfig → Bool
path_conforms c config =
    starts_with (txt "/") c.path
    && leb (len c.path) config.maximum_path_bytes
    && not (any (λ x. x == b';') c.path)
    && all is_printable (as_bytes c.path)

abbrev pub crosses_sites : SameSite → Bool
crosses_sites SameSite.none_site = true
crosses_sites _ = false

abbrev pub flags_conform : Cookie → ValidationConfig → Bool
flags_conform c config =
    (c.secure
      || (not (config.require_secure_for_none && crosses_sites c.same_site)
          && not (is_some c.partition_site)))

abbrev pub expiration_conforms : Option ℕ → Bool
expiration_conforms none = true
expiration_conforms (some expiry) = is_time expiry

abbrev pub prefix_conforms : Cookie → Bool
prefix_conforms c =
    (not (starts_with (txt "__Host-") c.name)
      || (c.secure && c.path =? txt "/" && not (starts_with (txt ".") c.domain) && c.host_only))
    && (not (starts_with (txt "__Secure-") c.name) || c.secure)

unfoldable pub conforms : Platform → Cookie → ValidationConfig → Bool
unfolding is_token is_printable is_label is_time
conforms platform c config =
    name_conforms c config
    && value_conforms c config
    && domain_conforms platform c config
    && path_conforms c config
    && flags_conform c config
    && expiration_conforms c.expiration_date
    && prefix_conforms c
