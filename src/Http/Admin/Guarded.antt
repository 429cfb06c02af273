-- ===== src/Http/Admin/Guarded.antt =====
-- Who gets past the guard of the admin desk.
use punchline.Base.{
  ℕ, ◌≡◌, ◌≢◌, true, [], ◌++◌, Option, none, some, Text, codes, arith, text_discrete, trim_space,
  ◌↔◌,
}
use punchline.Http.Requests.{Response, Server, unless_refused, allow_request}
use punchline.Http.Admin.{AdminDesk, constant_time_equal, unauthorized, require_admin}

-- The desk has a token and a database, and the header has the token.
abbrev pub IsAdmin : AdminDesk → Text → Type 0
IsAdmin desk authorization =
    (desk.admin_token ≢ [])
    × (trim_space authorization ≡ codes "Bearer " ++ desk.admin_token)
    × (desk.is_available ≡ true)

module _ {R S : Type 0} where
  wrong_guess :
      (r : Response) (o : Server R S × (Option Response))
      → (unless_refused some (λ t. (t, some r)) o).1 ≢ none
  unfolding unless_refused
  wrong_guess r (t, none) = λ e. cc
  wrong_guess r (t, some x) = λ e. cc

  -- A request gets past the guard, with no answer, exactly when the desk has a token, the header is
  -- `Bearer` with that token, and there is a database; it then leaves the server as it was, its
  -- limiter too.
  pub require_admin-passes :
      (desk : AdminDesk) (ip authorization : Text) (now : ℕ) (s : Server R S)
      → ((require_admin desk ip authorization now s).1 ≡ none ↔ IsAdmin desk authorization)
        × (require_admin desk ip authorization now s ≡ (s, none) ↔ IsAdmin desk authorization)
  unfolding require_admin constant_time_equal
  require_admin-passes desk ip authorization now s = elim (text_discrete desk.admin_token []) [
    | yes e ↦ ground (arith, e)
    | no n ↦ elim (text_discrete (trim_space authorization) (codes "Bearer " ++ desk.admin_token)) [
      | yes f ↦ ground (arith, n, f)
      | no m ↦
          let o = allow_request (codes "admin_auth_failure") desk.failure_limit ip now s in
          ground (arith, n, m, wrong_guess unauthorized o)
    ]
  ]
