-- ===== src/Patterns/Tests.antt =====
-- The flyweight's and the pool's theorems on the objects of the programs' `main`.
use kratos_demo.Prelude.{ℕ, ◌≡◌, ◌↔◌, refl, some, List, [], ◌∷◌, reverse, String}
use kratos_demo.Prelude.Assoc.{lookup, insert}
use kratos_demo.Prelude.Int.{ℤ, pos}
use kratos_demo.Prelude.Decimal.{emit, itoa}
use kratos_demo.Patterns.Flyweight.{new_circle_factory, get_circle, get_circles, get_circle_shares}
use kratos_demo.Patterns.Pool.{Op, do_put, do_get, put, get, run, run_stack, run-run_stack}

abbrev calls : List (String × ℤ)
calls = ("red", pos 10) ∷ ("green", pos 10) ∷ []

-- `main` asks for three circles, the last of which is there already.
main_shares : (get_circle (get_circles new_circle_factory calls) "red" (pos 10)).1 ≡ 0
unfolding get_circle get_circles lookup insert itoa emit
main_shares = refl

get_circle_shares_example :
    let f = get_circles new_circle_factory [] in
    let g = get_circles (get_circle f "red" (pos 10)).0 (("green", pos 10) ∷ []) in
    ((get_circle f "red" (pos 10)).1 ≡ (get_circle g "red" (pos 10)).1)
    ↔ ((◌≡◌ {A = String} "red" "red") × (pos 10 ≡ pos 10))
get_circle_shares_example =
    get_circle_shares [] (("green", pos 10) ∷ []) "red" "red" (pos 10) (pos 10)

-- `main` puts the number's pointer 0 and the text's pointer 1.
abbrev main_ops : List (Op ℕ)
main_ops = do_put 0 ∷ do_put 1 ∷ do_get ∷ do_get ∷ do_put 0 ∷ do_put 1 ∷ []

main_gets : run main_ops [] ≡ (some 1 ∷ some 0 ∷ [], 0 ∷ 1 ∷ [])
unfolding run put get
main_gets = refl

run-run_stack_example :
    run main_ops []
    ≡ ((run_stack main_ops (reverse [])).0, reverse (run_stack main_ops (reverse [])).1)
run-run_stack_example = run-run_stack main_ops []
