-- ===== src/Auth/Sessions/Tests.antt =====
-- A user who comes back twice, with a digest that keeps its input.
use bug_han.Prelude.{ℕ, ◌≡◌, refl, List, [], ◌∷◌, codes, length, replicate, arith}
use bug_han.Auth.Sessions.{create}
use bug_han.Auth.Sessions.Sliding.{answers, create-answers}

abbrev visits : List ℕ
visits = 1_000 ∷ 86_400_000_000_000 ∷ []

create-answers_example :
    answers
      (λ s. s)
      (codes "secret")
      visits
      (create (λ s. s) 500 (codes "u1") (codes "row") (codes "secret") [])
    ≡ replicate (length visits) (codes "u1")
create-answers_example =
    create-answers (λ s. s) (codes "secret") (codes "u1") (codes "row") 500 visits [] refl
      (omega arith, (omega arith, tt))
