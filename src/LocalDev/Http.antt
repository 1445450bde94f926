-- ===== src/LocalDev/Http.antt =====
-- internal/localdev/server.go: requests and responses. Forms and queries are lists of their values by
-- name; a response has its status and what the handler put in it, less the markup of pages.
use anyauth.Base.{
  ℕ, String, Bool, not, ◌||◌, Option, some, List, [], ◌∷◌, ◌==◌, if◌then◌else◌, contains, is_space,
  has_prefix,
}
use anyauth.Delegation.Tokens.{Claims, Value, text}
use anyauth.UserStore.Profiles
use anyauth.LocalDev.State.{User}

abbrev pub Values : Type 0
Values = List (String × String)

-- What ParseForm leaves in r.Form, or its error.
pub data Form : Type 0 where
  form : Values → Form
  malformed : String → Form

-- `values.Get(key)`
unfoldable pub get : Values → String → String
get [] key = ""
get ((k, v) ∷ rest) key = if k == key then v else get rest key

-- strings.Fields: `field` is the field that has been begun, in reverse.
unfoldable pub reverse_onto : String → String → String
reverse_onto String.[] s = s
reverse_onto (String.◌∷◌ c field) s = reverse_onto field (String.◌∷◌ c s)

unfoldable pub fields_from : String → String → List String
fields_from field String.[] = if field == "" then [] else reverse_onto field "" ∷ []
fields_from field (String.◌∷◌ c s) =
    let next = fields_from "" s in
    let longer = fields_from (String.◌∷◌ c field) s in
    if is_space c then (if field == "" then next else reverse_onto field "" ∷ next) else longer

unfoldable pub fields : String → List String
fields s = fields_from "" s

unfoldable pub has_scope : String → String → Bool
has_scope scopes want = contains (fields scopes) want

-- strings.TrimPrefix(s, p) where s has the prefix p.
unfoldable pub drop_prefix : String → String → String
drop_prefix s String.[] = s
drop_prefix String.[] (String.◌∷◌ d p) = ""
drop_prefix (String.◌∷◌ c s) (String.◌∷◌ d p) = drop_prefix s p

unfoldable pub clean_return_path : String → String
clean_return_path value =
    if value == "" || not (has_prefix value "/") || has_prefix value "//" then "/" else value

-- claimString: "" for a claim that is missing or no text.
abbrev pub as_text : Option Value → String
as_text (some (text s)) = s
as_text _ = ""

-- A cookie that is set: for a browser session, or deleted at once.
pub data Cookie : Type 0 where
  set_cookie : String → String → Cookie
  delete_cookie : String → Cookie

pub data Response : Type 0 where
  -- http.Error and http.NotFound
  http_error : ℕ → String → Response
  not_found : Response
  -- writeHTMLStatus, with the title and the message
  page : ℕ → String → String → Response
  -- the form of authorize: the hidden inputs, and whether it asks for the PIN
  sign_in : Values → Bool → Response
  -- the error of VerifyPIN, if there was one
  pin_failed : Option Profiles.Error → Response
  -- writeJSON with "error" and "error_description"
  json_error : ℕ → String → String → Response
  -- a redirect to the URL, with the query if there is one, setting cookies
  redirect : String → Values → List Cookie → Response
  -- the answer of the token endpoint: the access token, the seconds until it expires, the ID token
  tokens : String → ℕ → String → Response
  user_info : User → Response
  -- a page that shows the claims of a session
  claims_page : String → Claims → Response
  -- the error of the exchange of a code
  token_error : String → Response
