-- ===== src/Auth.antt =====
-- internal/auth/auth.go: tokens and roles. The key types and the JWT library are parameters.
pub mod Laws
use Prim.Native.String.{[], ◌∷◌}
use jumble.Shared.{
  String, Bool, true, false, Option, none, some, List, [], ◌∷◌, contains, if◌then◌else◌,
}
use jumble.Go.Error.{
  Error, Result, ok, err, plain, wrap, sentinel, err_forbidden, err_kid_missing, err_kid_malformed,
  err_invalid_token, context, ◌>>=◌,
}
use jumble.Go.Text.{has_prefix, drop, ◌^^◌}
use jumble.Bus.Models.{Time}

-- jwt.RegisteredClaims with the roles; a NumericDate is its time
pub record Claims : Type 0 where
  pub issuer : String
  pub subject : String
  pub issued_at : Time
  pub expires_at : Time
  pub roles : List String

-- The entry "kid" of a token's header, of any JSON type.
pub data Kid : Type 0 where
  missing not_text : Kid
  kid : String → Kid

-- What the parser gives back: the claims, and whether the token is valid.
pub record Parsed : Type 0 where
  pub claims : Claims
  pub valid : Bool

-- `keyLoader`
pub record KeyLoader (Private Public : Type 0) : Type 0 where
  pub private_key : String → Result Private
  pub public_key : String → Result Public

-- golang-jwt with RS256: signing a token with the header "kid", and parsing with a key function
pub record Jwt (Private Public : Type 0) : Type 0 where
  pub signed_string : String → Claims → Private → Result String
  pub parse_with_claims : String → (Kid → Result Public) → Result Parsed
  pub numeric_date : Time → Time

module _ {Private Public : Type 0} (loader : KeyLoader Private Public)
    (jwt : Jwt Private Public) where
  unfoldable pub generate_token : String → Claims → Result String
  generate_token id c = do
    private_key ← context "privateKey" (loader.private_key id)
    context "signedString" (jwt.signed_string id c private_key)

  -- The key function of VerifyToken.
  unfoldable pub key_func : Kid → Result Public
  key_func missing = err (sentinel err_kid_missing)
  key_func not_text = err (sentinel err_kid_malformed)
  key_func (kid k) = context ("fetching public key for kid[" ^^ (k ^^ "]")) (loader.public_key k)

  unfoldable pub verify_token : String → Result Claims
  verify_token bearer =
      if has_prefix bearer "Bearer "
      then (do
        verified ← context "parseWithClaims" (jwt.parse_with_claims (drop 7 bearer) key_func)
        if verified.valid then ok verified.claims else err (sentinel err_invalid_token))
      else err (plain "expected authorization header format: Bearer <token>")

-- (a *Auth) Authorized: the loop over the roles of the claims, against the keys of the role set
authorized_roles : List String → List String → Option Error
authorized_roles [] role_set = some (sentinel err_forbidden)
authorized_roles (role ∷ roles) role_set =
    if contains role_set role then none else authorized_roles roles role_set

unfoldable pub authorized : Claims → List String → Option Error
unfolding authorized_roles
authorized c role_set = authorized_roles c.roles role_set
