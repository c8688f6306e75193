-- ===== src/Tests/Data.antt =====
-- Cookies and stores for the tests.
use luck_editor.Prelude.{[], ◌∷◌, true, false, none, some}
use luck_editor.Text.{Text, txt}
use luck_editor.Model.{Cookie, SameSite}
use luck_editor.Store.{CommitMetadata}

abbrev pub cookie : Text → Text → Cookie
cookie name value = record {
  name = name;
  value = value;
  domain = txt ".Example.com";
  path = txt "/a";
  secure = false;
  http_only = true;
  same_site = SameSite.none_site;
  expiration_date = none;
  session = true;
  host_only = false;
  store_id = none;
  partition_site = some (txt "p");
  metadata = (txt "k", txt "v") ∷ [];
}

abbrev pub sid : Cookie
sid = cookie (txt "sid") (txt "1")

-- The same key with another value.
abbrev pub sid2 : Cookie
sid2 = cookie (txt "sid") (txt "2")

abbrev pub lang : Cookie
lang = cookie (txt "lang") (txt "en")

abbrev pub metadata : CommitMetadata
metadata = record { actor = txt "user"; reason = txt "test"; timestamp_millis = 7 }
