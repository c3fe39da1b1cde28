-- ===== src/Generator/Tests.antt =====
-- The generator on a file system that is a map, with an engine that knows the generator's templates.
use kratos_demo.Prelude.{
  format, In, ◌≡◌, ◌≢◌, refl, sym, subst, ◌∙◌, inl, inr, ap, none, some, List, [], ◌∷◌, String,
  arith, if◌then◌else◌, ◌==◌, string_comparable, eq_iff, Bool-cases,
}
use kratos_demo.Prelude.Assoc.{Map, lookup, insert, lookup-insert, lookup-insert_self}
use kratos_demo.Generator.{Os, files, make_directories, directories, generate_file, main}
use kratos_demo.Generator.Files.{IsOs, AllGenerated, main_generates}
use kratos_demo.Generator.Templates.{
  Piece, template, rendered, main_template, user_controller_template, user_model_template,
  logger_template, user_routes_template,
}

abbrev known : List (List Piece)
known =
    main_template ∷ user_controller_template ∷ user_model_template ∷ logger_template
    ∷ user_routes_template ∷ []

-- The text of the first template of the list that reads so.
unfoldable expand : List (List Piece) → String → String → String
expand [] text_of owner = ""
expand (pieces ∷ rest) text_of owner =
    if template pieces == text_of then rendered owner pieces else expand rest text_of owner

abbrev name_in : Map String String → String
name_in values = elim (lookup "PackageName" values) [ none ↦ "<no value>" | some v ↦ v ]

abbrev disk : Os
disk = record {
  E = String;
  Fs = Map String String;
  Template = String;
  mkdir_all = λ path fs. (none, fs);
  create = λ path fs. (none, insert path "" fs);
  parse = λ s. inr s;
  execute = λ t path values fs. (none, insert path (expand known t (name_in values)) fs);
}

lookup-insert_other :
    (path q v : String) (fs : Map String String)
    → q ≢ path
    → lookup q (insert path v fs) ≡ lookup q fs
lookup-insert_other path q v fs n = elim (Bool-cases (◌==◌ {K = String} path q)) [
  | inl e ↦ absurd (n (sym ((eq_iff path q).0 e)))
  | inr e ↦ lookup-insert path q v fs ∙ ground (arith, e)
]

expand-known :
    (pieces : List Piece) (owner : String)
    → In pieces known
    → expand known (template pieces) owner ≡ rendered owner pieces
unfolding expand template rendered format main_template user_controller_template user_model_template
    logger_template user_routes_template
expand-known pieces owner (inl e) =
    subst (λ p. expand known (template p) owner ≡ rendered owner p) (sym e) refl
expand-known pieces owner (inr (inl e)) =
    subst (λ p. expand known (template p) owner ≡ rendered owner p) (sym e) refl
expand-known pieces owner (inr (inr (inl e))) =
    subst (λ p. expand known (template p) owner ≡ rendered owner p) (sym e) refl
expand-known pieces owner (inr (inr (inr (inl e)))) =
    subst (λ p. expand known (template p) owner ≡ rendered owner p) (sym e) refl
expand-known pieces owner (inr (inr (inr (inr (inl e))))) =
    subst (λ p. expand known (template p) owner ≡ rendered owner p) (sym e) refl
expand-known pieces owner (inr (inr (inr (inr (inr i))))) = absurd i

disk-IsOs : IsOs disk (λ pieces. In pieces known)
unfolding lookup
disk-IsOs = record {
  content = λ path fs. lookup path fs;
  create_others = λ path fs q n. lookup-insert_other path q "" fs n;
  execute_others =
      λ t path values fs q n. lookup-insert_other path q (expand known t (name_in values)) fs n;
  renders = λ pieces t path owner fs u k c x.
      let e : template pieces ≡ t = cc k in
      subst
        (λ s.
          lookup path (insert path (expand known s owner) (insert path "" fs))
          ≡ some (rendered owner pieces))
        e
        (subst (λ s. lookup path (insert path s (insert path "" fs)) ≡ some (rendered owner pieces))
          (sym (expand-known pieces owner u))
          (lookup-insert_self path (rendered owner pieces) (insert path "" fs)));
}

files-known : (f : String × List Piece) → In f files → In f.1 known
files-known f (inl e) = inl (ap (λ p. p.1) e)
files-known f (inr (inl e)) = inr (inl (ap (λ p. p.1) e))
files-known f (inr (inr (inl e))) = inr (inr (inl (ap (λ p. p.1) e)))
files-known f (inr (inr (inr (inl e)))) = inr (inr (inr (inl (ap (λ p. p.1) e))))
files-known f (inr (inr (inr (inr (inl e))))) = inr (inr (inr (inr (inl (ap (λ p. p.1) e)))))
files-known f (inr (inr (inr (inr (inr i))))) = absurd i

all-AllGenerated : AllGenerated disk files (make_directories disk directories [])
unfolding AllGenerated generate_file
all-AllGenerated = (refl, (refl, (refl, (refl, (refl, tt)))))

main_generates_example :
    disk-IsOs.content "my-gin-app/models/user_model.go" (main disk []).0
    ≡ some (rendered "my-gin-app" user_model_template)
main_generates_example =
    main_generates disk (λ pieces. In pieces known) disk-IsOs [] "/models/user_model.go"
      user_model_template files-known all-AllGenerated (inr (inr (inl refl)))
