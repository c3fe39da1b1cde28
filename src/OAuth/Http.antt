-- ===== src/OAuth/Http.antt =====
-- What the OAuth2 programs use of Go's net/http, net/url and fmt, which is not code of the
-- repository: responses as data, and the URL and number formatting as parameters.
use kratos_demo.Prelude.{ℕ, Option, String}

-- The body of a JSON response: an error message, or the token endpoint's success.
pub data Body : Type 0 where
  error : String → Body
  token : (access_token token_type : String) (expires_in : ℕ) → Body

pub data Response : Type 0 where
  json : ℕ → Body → Response
  redirect : ℕ → String → Response

-- net/url: `url.Parse`, `URL.Query`, `Values.Set`, `Values.Encode`, `URL.RawQuery =`, `URL.String`.
pub record Urls : Type 1 where
  pub Url : Type 0
  pub Values : Type 0
  pub parse : String → Option Url
  pub query : Url → Values
  pub set : Values → String → String → Values
  pub encode : Values → String
  pub with_raw_query : Url → String → Url
  pub render : Url → String

-- fmt.Sprintf with "%06d" and with "%x".
pub record Formats : Type 0 where
  pub pad6 : ℕ → String
  pub hex : ℕ → String
