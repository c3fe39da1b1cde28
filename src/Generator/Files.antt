-- ===== src/Generator/Files.antt =====
-- What cmd/generatex.go leaves in the files that it generates.
use kratos_demo.Prelude.{
  In, IsDistinct, ◌≡◌, ◌≢◌, refl, sym, ap, ◌∙◌, inl, inr, Option, none, some, List, [], ◌∷◌, map,
  String, Sum-cases, string_comparable, Option-cases,
}
use text.Mathlib.TextLemmas.{append_cancel_left}
use kratos_demo.Prelude.Distinct.{all_distinct-IsDistinct}
use kratos_demo.Prelude.Assoc.{Map}
use kratos_demo.Generator.{
  Os, created, generate_file, in_package, directories, files, make_directories, generate_files,
  main,
}
use kratos_demo.Generator.Templates.{Piece, template, rendered}

-- What os and text/template document: creating a file touches no other one, and executing a template
-- into a created file, if that does not fail, leaves there the text with the value of `PackageName` in
-- the place of every `{{.PackageName}}`. The second is asked of some templates only.
pub record IsOs (os : Os) (used : List Piece → Type 0) : Type 1 where
  pub content : String → os.Fs → Option String
  pub create_others :
      (path : String) (fs : os.Fs) (q : String)
      → q ≢ path
      → content q (os.create path fs).1 ≡ content q fs
  pub execute_others :
      (t : os.Template) (path : String) (values : Map String String) (fs : os.Fs) (q : String)
      → q ≢ path
      → content q (os.execute t path values fs).1 ≡ content q fs
  pub renders :
      (pieces : List Piece) (t : os.Template) (path owner : String) (fs : os.Fs)
      → used pieces
      → os.parse (template pieces) ≡ inr t
      → (os.create path fs).0 ≡ none
      → (os.execute t path (("PackageName", owner) ∷ []) (os.create path fs).1).0 ≡ none
      → content path (os.execute t path (("PackageName", owner) ∷ []) (os.create path fs).1).1
        ≡ some (rendered owner pieces)

in_package-injective : (x y : String) → in_package x ≡ in_package y → x ≡ y
in_package-injective x y h = append_cancel_left "my-gin-app" x y h

In-path :
    (path : String) (pieces : List Piece) (fs : List (String × List Piece))
    → In (path, pieces) fs
    → In path (map (λ p. p.0) fs)
In-path path pieces [] i = absurd i
In-path path pieces (f ∷ fs) (inl e) = inl (ap (λ p. p.0) e)
In-path path pieces (f ∷ fs) (inr i) = inr (In-path path pieces fs i)

files-IsDistinct : IsDistinct (map (λ p. p.0) files)
files-IsDistinct = all_distinct-IsDistinct (map (λ p. p.0) files) refl

module _ (os : Os) where
  -- Each of some files is generated with no failure.
  unfoldable pub AllGenerated : List (String × List Piece) → os.Fs → Type 0
  AllGenerated [] fs = Unit {0}
  AllGenerated ((path, pieces) ∷ rest) fs =
      ((generate_file os (in_package path) (template pieces) "my-gin-app" fs).0 ≡ none)
      × AllGenerated rest (generate_file os (in_package path) (template pieces) "my-gin-app" fs).1

module _ (os : Os) (used : List Piece → Type 0) (is : IsOs os used) where
  created-some :
      (path : String) (t : os.Template) (owner : String) (c : Option os.E × os.Fs) (e : os.E)
      → c.0 ≡ some e
      → created os path t owner c ≡ c
  created-some path t owner (some e', fs) e h = refl
  created-some path t owner (none, fs) e h = absurd (cc h)

  created-none :
      (path : String) (t : os.Template) (owner : String) (c : Option os.E × os.Fs)
      → c.0 ≡ none
      → created os path t owner c ≡ os.execute t path (("PackageName", owner) ∷ []) c.1
  created-none path t owner (some e', fs) h = absurd (cc h)
  created-none path t owner (none, fs) h = refl

  -- A file that is generated with no failure has the template's text for the owner.
  generate_file-content :
      (path owner : String) (pieces : List Piece) (fs : os.Fs)
      → used pieces
      → (generate_file os path (template pieces) owner fs).0 ≡ none
      → is.content path (generate_file os path (template pieces) owner fs).1
        ≡ some (rendered owner pieces)
  unfolding generate_file
  generate_file-content path owner pieces fs u h = elim (Sum-cases (os.parse (template pieces))) [
    | inl (e, k) ↦ absurd (cc (h, k))
    | inr (t, k) ↦
        let g : generate_file os path (template pieces) owner fs
            ≡ created os path t owner (os.create path fs) =
          cc k in
        elim (Option-cases (os.create path fs).0) [
          | inr (e, l) ↦ absurd (cc (h, g, l, created-some path t owner (os.create path fs) e l))
          | inl l ↦
              let r = g ∙ created-none path t owner (os.create path fs) l in
              let h' = sym (ap (λ c. c.0) r) ∙ h in
              ap (λ c. is.content path c.1) r ∙ is.renders pieces t path owner fs u k l h'
        ]
  ]

  -- Generating a file leaves every other one as it is.
  generate_file-others :
      (path owner text' : String) (fs : os.Fs) (q : String)
      → q ≢ path
      → is.content q (generate_file os path text' owner fs).1 ≡ is.content q fs
  unfolding generate_file
  generate_file-others path owner text' fs q n = elim (Sum-cases (os.parse text')) [
    | inl (e, k) ↦ cc k
    | inr (t, k) ↦
        let g : generate_file os path text' owner fs ≡ created os path t owner (os.create path fs) =
          cc k in
        let c = is.create_others path fs q n in
        ap (λ x. is.content q x.1) g ∙ elim (Option-cases (os.create path fs).0) [
          | inr (e, l) ↦
              ap (λ x. is.content q x.1) (created-some path t owner (os.create path fs) e l) ∙ c
          | inl l ↦
              ap (λ x. is.content q x.1) (created-none path t owner (os.create path fs) l)
              ∙ is.execute_others t path (("PackageName", owner) ∷ []) (os.create path fs).1 q n
              ∙ c
        ]
  ]

  generate_files-others :
      (list : List (String × List Piece)) (fs : os.Fs) (q : String)
      → (In q (map (λ p. p.0) list) → ⊥)
      → is.content (in_package q) (generate_files os list fs) ≡ is.content (in_package q) fs
  unfolding generate_files
  generate_files-others [] fs q n = refl
  generate_files-others ((path, pieces) ∷ list) fs q n =
      generate_files-others list
        (generate_file os (in_package path) (template pieces) "my-gin-app" fs).1 q (λ i. n (inr i))
      ∙ generate_file-others (in_package path) "my-gin-app" (template pieces) fs (in_package q)
          (λ e. n (inl (in_package-injective q path e)))

  generate_files-content :
      (list : List (String × List Piece)) (fs : os.Fs) (path : String) (pieces : List Piece)
      → IsDistinct (map (λ p. p.0) list)
      → ((f : String × List Piece) → In f list → used f.1)
      → AllGenerated os list fs
      → In (path, pieces) list
      → is.content (in_package path) (generate_files os list fs)
        ≡ some (rendered "my-gin-app" pieces)
  unfolding generate_files AllGenerated
  generate_files-content [] fs path pieces d u all i = absurd i
  generate_files-content ((p, ps) ∷ list) fs path pieces (n, d) u (h, all) (inl e) =
      let x = ap (λ f. f.0) e in
      let after = (generate_file os (in_package p) (template ps) "my-gin-app" fs).1 in
      ap (λ q. is.content (in_package q) (generate_files os list after)) x
      ∙ generate_files-others list after p n
      ∙ generate_file-content (in_package p) "my-gin-app" ps fs (u (p, ps) (inl refl)) h
      ∙ ap (λ f. some (rendered "my-gin-app" f.1)) (sym e)
  generate_files-content ((p, ps) ∷ list) fs path pieces (n, d) u (h, all) (inr i) =
      generate_files-content list (generate_file os (in_package p) (template ps) "my-gin-app" fs).1
        path pieces d (λ f j. u f (inr j)) all i

  -- Once the project has been generated with no failure of a file, each of its files has its template's
  -- text with the package's name filled in.
  pub main_generates :
      (fs : os.Fs) (path : String) (pieces : List Piece)
      → ((f : String × List Piece) → In f files → used f.1)
      → AllGenerated os files (make_directories os directories fs)
      → In (path, pieces) files
      → is.content (in_package path) (main os fs).0 ≡ some (rendered "my-gin-app" pieces)
  unfolding main
  main_generates fs path pieces u all i =
      generate_files-content files (make_directories os directories fs) path pieces files-IsDistinct
        u all i
