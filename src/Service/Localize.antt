-- ===== src/Service/Localize.antt =====
-- internal/pkg/middleware/localize/localize.go.
use kratos_demo.Prelude.{none, some, ok, panic}
use kratos_demo.Service.Kratos.{Call, I18n, Context, Middleware}

module _ (i : I18n) where
  -- The context that the middleware hands to its handler.
  unfoldable pub with_localizer : i.Bundle → Context i → Context i
  with_localizer bundle ctx = elim ctx.transport [
    | none ↦ ctx
    | some header ↦ record ctx {
      localizer = some (i.new_localizer bundle (header "accept-language"));
    }
  ]

  -- `I18N()`: a missing message file panics.
  unfoldable pub i18n : Call (Middleware i)
  i18n = elim (i.load_message_file i.new_bundle "demosvc/active.zh.toml") [
    | none ↦ panic
    | some bundle ↦ ok (λ handler ctx req. handler (with_localizer bundle ctx) req)
  ]

  -- The type assertion on a missing value panics.
  unfoldable pub from_context : Context i → Call i.Localizer
  from_context ctx = elim ctx.localizer [ none ↦ panic | some l ↦ ok l ]
