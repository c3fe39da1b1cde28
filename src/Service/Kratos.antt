-- ===== src/Service/Kratos.antt =====
-- What the service uses of kratos and go-i18n, which are not code of the repository: errors,
-- contexts, handlers and middlewares as data, the libraries' operations as a parameter.
use kratos_demo.Prelude.{ℕ, ◌≡◌, ◌≢◌, Option, List, foldr, String, Outcome, err, panic}

-- A kratos error (`errors.New(code, reason, message)`), the one that the recovery middleware makes of
-- a panic, or any other.
pub data Error : Type 0 where
  status : (code : ℕ) (reason message : String) → Error
  unknown_request : Error
  other : String → Error

abbrev pub Call : Type 0 → Type 0
Call A = Outcome Error A

-- `i18n.LocalizeConfig`: the message's id and default forms, and the name for the template.
pub record LocalizeConfig : Type 0 where
  pub description : String
  pub id : String
  pub one : String
  pub other : String
  pub name : String

-- go-i18n: bundles and localizers.
pub record I18n : Type 1 where
  pub Bundle : Type 0
  pub Localizer : Type 0
  pub new_bundle : Bundle
  -- `MustLoadMessageFile`: `none` is its panic.
  pub load_message_file : Bundle → String → Option Bundle
  pub new_localizer : Bundle → String → Localizer
  pub localize : Localizer → LocalizeConfig → Call String

pub record HelloRequest : Type 0 where
  pub name : String

pub record HelloReply : Type 0 where
  pub message : String

module _ (i : I18n) where
  -- What the service reads of a `context.Context`: the server transport's request header, as a
  -- function of the key, and the value under `localizerKey{}`.
  pub record Context : Type 0 where
    pub transport : Option (String → String)
    pub localizer : Option i.Localizer

  abbrev pub Handler : Type 0
  Handler = Context → HelloRequest → Call HelloReply

  abbrev pub Middleware : Type 0
  Middleware = Handler → Handler

  -- kratos: the middlewares of the library, and how a server composes the list that it is given.
  pub record Middlewares : Type 0 where
    pub recovery : Middleware
    pub tracing : Middleware
    pub logging : Middleware
    pub metrics : Middleware
    pub validator : Middleware
    pub chain : List Middleware → Middleware

  -- The library's documentation: the first middleware of a list is the outermost; `recovery` turns a
  -- panic into `ErrUnknownRequest` and passes all else on; the others hand the request on, since
  -- HelloRequest has no `Validate` method.
  pub record IsDocumented (m : Middlewares) : Type 0 where
    pub chains : (ms : List Middleware) (h : Handler) → m.chain ms h ≡ foldr (λ f g. f g) h ms
    pub recovers :
        (h : Handler) (ctx : Context) (r : HelloRequest)
        → h ctx r ≡ panic
        → m.recovery h ctx r ≡ err unknown_request
    pub recovery_keeps :
        (h : Handler) (ctx : Context) (r : HelloRequest)
        → h ctx r ≢ panic
        → m.recovery h ctx r ≡ h ctx r
    pub tracing_keeps :
        (h : Handler) (ctx : Context) (r : HelloRequest) → m.tracing h ctx r ≡ h ctx r
    pub logging_keeps :
        (h : Handler) (ctx : Context) (r : HelloRequest) → m.logging h ctx r ≡ h ctx r
    pub metrics_keeps :
        (h : Handler) (ctx : Context) (r : HelloRequest) → m.metrics h ctx r ≡ h ctx r
    pub validator_keeps :
        (h : Handler) (ctx : Context) (r : HelloRequest) → m.validator h ctx r ≡ h ctx r
