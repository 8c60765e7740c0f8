-- ===== src/Users/Token.antt =====
-- Tokens: GenerateJwtToken of app/usercenter/cmd/rpc/internal/svc/servicecontext.go, and the
-- middleware of pkg/jwt/jwtmiddleware.go that the HTTP services of the repository share.
pub mod Laws
use Prim.Native.Char.{code}
use Prim.Native.String.{String}
use text.Mathlib.Text.{◌==◌ as str_eq}
use gozero_x.Common.{
  ℕ, ◌+◌, ◌≤◌, ◌<◌, ◌≡◌, Bool, true, false, Option, none, some, ◌==◌, if◌then◌else◌,
}
use gozero_x.Json.{Json, null, number, quoted, array, int, deliver}
use gozero_x.Users.Accounts.{JwtToken}

-- `jwt.MapClaims` as it is signed.
pub record Claims : Type 0 where
  pub user_id : ℕ
  pub exp : ℕ
  pub iat : ℕ

-- The JWT library: `sign` is SignedString, `parse` gives claim `user_id` of a token that Parse finds
-- valid at a time.
pub record Jwt : Type 0 where
  pub sign : String → Claims → Option String
  pub parse : String → ℕ → String → Option Json

-- The documented behaviour: a signed token is valid from its `iat` until before its `exp`, with the
-- secret it was signed with, and gives its claims as JSON does; later it is not valid.
pub record IsLawful (j : Jwt) : Type 0 where
  pub accepts :
      (secret : String) (c : Claims) (token : String) (now : ℕ)
      → j.sign secret c ≡ some token
      → c.iat ≤ now
      → now < c.exp
      → j.parse secret now token ≡ some (deliver (int c.user_id))
  pub rejects :
      (secret : String) (c : Claims) (token : String) (now : ℕ)
      → j.sign secret c ≡ some token
      → c.exp ≤ now
      → j.parse secret now token ≡ none

-- What becomes of a request: an error, or the next handler with the user in its context.
pub data Handled : Type 0 where
  denied : String → Handled
  passes : ℕ → Handled

-- `strings.SplitN(s, " ", 2)`, `none` if there is one part.
unfoldable pub split_space : String → Option (String × String)
split_space String.[] = none
split_space (String.◌∷◌ c s) = if code c == b' ' then some ("", s) else elim (split_space s) [
  | none ↦ none
  | some (before, after) ↦ some (String.◌∷◌ c before, after)
]

-- `claims["user_id"].(float64)`
unfoldable pub with_claim : Option Json → Handled
with_claim none = denied "无效token"
with_claim (some (number n)) = passes n
with_claim (some null) = denied "token中无user_id"
with_claim (some (quoted s)) = denied "token中无user_id"
with_claim (some (array l)) = denied "token中无user_id"

-- `authHeader == ""`
abbrev pub is_empty : String → Bool
is_empty String.[] = true
is_empty (String.◌∷◌ c s) = false

abbrev pub made_token : ℕ → Option String → Option JwtToken
made_token expire none = none
made_token expire (some token) = some (record { access_token = token; access_expire = expire })

module _ (j : Jwt) (secret : String) where
  unfoldable pub with_parts : ℕ → Option (String × String) → Handled
  with_parts now none = denied "token格式错误"
  with_parts now (some (scheme, token)) =
      if str_eq scheme "Bearer" then with_claim (j.parse secret now token) else denied "token格式错误"

  -- `Handle`, at a time and with the header `Authorization`.
  unfoldable pub handle : ℕ → String → Handled
  handle now header =
      if is_empty header then denied "缺少token" else with_parts now (split_space header)

  -- `GenerateJwtToken`; `lifetime` is `AccessExpire` of the configuration.
  unfoldable pub generate_jwt_token : ℕ → ℕ → ℕ → Option JwtToken
  generate_jwt_token lifetime now uid =
      let expire = now + lifetime in
      made_token expire (j.sign secret (record { user_id = uid; exp = expire; iat = now }))
