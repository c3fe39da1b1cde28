-- ===== src/Prelude/Texts.antt =====
-- Texts put together, as `fmt.Sprintf` does once its arguments are formatted.
use Prim.Native.String.{String, ◌++◌ as str_append}
use mathlib.Core.List.{List, [], ◌∷◌}

unfoldable pub format : List String → String
format [] = ""
format (part ∷ parts) = str_append part (format parts)
