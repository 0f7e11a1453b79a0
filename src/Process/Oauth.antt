-- ===== src/Process/Oauth.antt =====
-- `devOAuthHandler` of main.go, with the URLs of Go's `net/url` as a parameter.
pub mod Safety
use Prim.Native.String.{◌++◌}
use den_kit_stash.Base.{
  String, Bool, true, false, not, ◌&&◌, ◌||◌, Option, none, some, ◌==◌, text_eq, if◌then◌else◌,
}
use den_kit_stash.Model.{User, is_empty}
use den_kit_stash.World.{Env, ◌>>=◌, ◌>>◌, pure, lift, from_option, ◌or_fail◌}
use den_kit_stash.Http.{Handler, Response, problem, found}
use den_kit_stash.Auth.{create_test_user}
use den_kit_stash.Build.Access.{refuse_if}

-- `url.Parse`, the parts of a URL, and its text once it has a fragment.
pub record Urls : Type 1 where
  pub Url : Type 0
  pub parse : String → Option Url
  pub scheme : Url → String
  pub hostname : Url → String
  pub render_with_fragment : Url → String → String

module _ (urls : Urls) where
  abbrev pub is_loopback : urls.Url → Bool
  is_loopback url =
      let host = urls.hostname url in host == "localhost" || host == "127.0.0.1" || host == "::1"

  abbrev pub only_local : Option urls.Url → Option urls.Url
  only_local none = none
  only_local (some url) =
      if not (urls.scheme url == "http") then none else if is_loopback url then some url else none

  -- parseDevOAuthRedirectURI
  unfoldable pub parse_dev_oauth_redirect_uri : String → Option urls.Url
  parse_dev_oauth_redirect_uri raw = only_local (urls.parse raw)

  -- devOAuthRedirectURL
  unfoldable pub dev_oauth_redirect_url : urls.Url → String → String
  dev_oauth_redirect_url url api_key = urls.render_with_fragment url ("access_token=" ++ api_key)

  module _ {e : Env} {B : Type 0} where
    abbrev pub authorize : urls.Url → Handler e B (Response B)
    authorize url = do
      user ← create_test_user "testuser" or_fail problem 500 "OAuth test user unavailable"
      pure (found (dev_oauth_redirect_url url user.api_key))

    -- devOAuthHandler, for the client_id and the redirect_uri of the query
    unfoldable pub dev_oauth_handler : String → String → Handler e B (Response B)
    dev_oauth_handler client_id redirect_uri = do
      refuse_if (not (client_id == "butler")) (problem 400 "Invalid client_id")
      refuse_if (is_empty redirect_uri) (problem 400 "Missing redirect_uri")
      url ← lift (
          from_option (problem 400 "Invalid redirect_uri")
            (parse_dev_oauth_redirect_uri redirect_uri))
      authorize url
