-- ===== src/Handler/Endpoints/Refusals.antt =====
-- What CreateUser of internal/domains/user/handler/handler.go answers when bcrypt refuses a
-- password.
use jumble.Shared.{◌≡◌, refl, false}
use jumble.Go.Error.{Error, ok, err, wrap, is, err_duplicated_email}
use jumble.Bus.Models
use jumble.Bus.Users
use jumble.Handler.Models.{NewUser, to_bus_new_user}
use jumble.Handler.Binding.{bind_new_user}
use jumble.Handler.Reply.{Request, failed}
use jumble.Handler.Endpoints.{App, Moments, create_user, problem}

module _ {S Private Public : Type 0} (app : App S Private Public) where
  -- When bcrypt refuses the password of a body that binds and converts, with an error that is not
  -- the duplicated-email error, CreateUser answers 500 and leaves the store as it was.
  pub create_user_refused :
      (m : Moments) (r : Request) (s : S) (nu : NewUser) (bu : Models.NewUser) (e : Error)
      → bind_new_user app.wire r.body ≡ ok nu
      → to_bus_new_user app.lib nu ≡ ok bu
      → app.lib.generate_from_password bu.password ≡ err e
      → is e err_duplicated_email ≡ false
      → create_user app m r s
        ≡ (failed (problem "CreateUser" 53 500 "create: " (wrap "generateFromPassword" e)), s)
  unfolding create_user Users.create is
  create_user_refused m r s nu bu e b c refused other = rw (b, c, refused, other) refl
