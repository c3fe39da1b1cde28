-- ===== src/Generator.antt =====
-- cmd/generatex.go: the generator of a project's files. os and text/template are parameters.
pub mod Templates
pub mod Files
pub mod Tests
use kratos_demo.Prelude.{◌≡◌, ◌⊎◌, inl, inr, Option, none, some, List, [], ◌∷◌, String, str_append}
use kratos_demo.Prelude.Assoc.{Map}
use kratos_demo.Generator.Templates.{
  Piece, template, main_template, user_controller_template, user_model_template, logger_template,
  user_routes_template,
}

-- os.MkdirAll, os.Create and text/template's Parse and Execute, the latter into the file at a path.
pub record Os : Type 1 where
  pub E : Type 0
  pub Fs : Type 0
  pub Template : Type 0
  pub mkdir_all : String → Fs → Option E × Fs
  pub create : String → Fs → Option E × Fs
  pub parse : String → E ⊎ Template
  pub execute : Template → String → Map String String → Fs → Option E × Fs

abbrev pub in_package : String → String
in_package path = str_append "my-gin-app" path

-- The calls of `main`, in their order; what they return is dropped.
abbrev pub directories : List String
directories = "/controllers" ∷ "/models" ∷ "/middlewares" ∷ "/routes" ∷ []

abbrev pub files : List (String × List Piece)
files =
    ("/main.go", main_template)
    ∷ ("/controllers/user_controller.go", user_controller_template)
    ∷ ("/models/user_model.go", user_model_template)
    ∷ ("/middlewares/logger.go", logger_template)
    ∷ ("/routes/user_routes.go", user_routes_template)
    ∷ []

module _ (os : Os) where
  open os use {E, Fs, Template, mkdir_all, create, parse, execute}

  abbrev pub created : String → Template → String → Option E × Fs → Option E × Fs
  created file_path tmpl package_name (some e, fs) = (some e, fs)
  created file_path tmpl package_name (none, fs) =
      execute tmpl file_path (("PackageName", package_name) ∷ []) fs

  unfoldable pub generate_file : String → String → String → Fs → Option E × Fs
  generate_file file_path template_str package_name fs = elim (parse template_str) [
    | inl e ↦ (some e, fs)
    | inr tmpl ↦ created file_path tmpl package_name (create file_path fs)
  ]

  unfoldable pub make_directories : List String → Fs → Fs
  make_directories [] fs = fs
  make_directories (path ∷ paths) fs = make_directories paths (mkdir_all (in_package path) fs).1

  unfoldable pub generate_files : List (String × List Piece) → Fs → Fs
  generate_files [] fs = fs
  generate_files ((path, pieces) ∷ rest) fs =
      generate_files rest (generate_file (in_package path) (template pieces) "my-gin-app" fs).1

  -- With the line that it prints.
  unfoldable pub main : Fs → Fs × String
  main fs =
      (generate_files files (make_directories directories fs), "Project generated successfully!")
