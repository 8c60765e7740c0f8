-- ===== src/Users/Token/Laws.antt =====
-- A token of GenerateJwtToken, until it expires, names its user to the middleware.
use Prim.Native.String.{String, ◌∷◌}
use gozero_x.Common.{
  ℕ, ◌+◌, ◌^◌, ◌≤◌, ◌<◌, ◌≡◌, refl, ap, ◌∙◌, inl, inr, Bool-cases, ltb, ltb→lt, ltb-false→le,
  Option, none, some, arith, if◌then◌else◌,
}
use gozero_x.Json.{deliver}
use gozero_x.Json.Exact.{float64-exact}
use gozero_x.Users.Accounts.{JwtToken}
use gozero_x.Users.Token.{
  Jwt, IsLawful, denied, passes, split_space, with_claim, with_parts, handle, made_token,
  generate_jwt_token,
}

-- The header of a token: `Bearer `, and the token.
abbrev pub bearer : String → String
bearer token = "B" ∷ "e" ∷ "a" ∷ "r" ∷ "e" ∷ "r" ∷ " " ∷ token

split_space-bearer : (token : String) → split_space (bearer token) ≡ some ("Bearer", token)
unfolding split_space
split_space-bearer token = refl

made_token-some :
    (expire : ℕ) (o : Option String) (t : JwtToken)
    → made_token expire o ≡ some t
    → (o ≡ some t.access_token) × (t.access_expire ≡ expire)
made_token-some expire none t h = absurd (ground arith)
made_token-some expire (some token) t h = (ground arith, ground arith)

module _ (j : Jwt) (lawful : IsLawful j) (secret : String) where
  generated :
      (lifetime made uid : ℕ) (t : JwtToken)
      → generate_jwt_token j secret lifetime made uid ≡ some t
      → (j.sign secret (record { user_id = uid; exp = made + lifetime; iat = made })
          ≡ some t.access_token)
        × (t.access_expire ≡ made + lifetime)
  unfolding generate_jwt_token
  generated lifetime made uid t h = made_token-some (made + lifetime) _ t h

  handle-bearer :
      (now : ℕ) (token : String)
      → handle j secret now (bearer token) ≡ with_claim (j.parse secret now token)
  unfolding handle with_parts
  handle-bearer now token = ap (with_parts j secret now) (split_space-bearer token)

  -- A token that GenerateJwtToken makes for a user with a uid below 2^53 lets the user through, under
  -- this uid, from when it was made until before it expires, and is not valid from then on.
  pub handle-generate_jwt_token :
      (lifetime made uid now : ℕ) (t : JwtToken)
      → generate_jwt_token j secret lifetime made uid ≡ some t
      → uid < 2 ^ 53
      → made ≤ now
      → handle j secret now (bearer t.access_token)
        ≡ (if ltb now t.access_expire then passes uid else denied "无效token")
  unfolding with_claim deliver
  handle-generate_jwt_token lifetime made uid now t h small later =
      let (signed, until) = generated lifetime made uid t h in
      handle-bearer now t.access_token ∙ elim (Bool-cases (ltb now t.access_expire)) [
        | inl before ↦
            let valid : now < made + lifetime = omega (arith, ltb→lt now t.access_expire before) in
            rw (before, lawful.accepts secret _ t.access_token now signed later valid)
              (ap passes (float64-exact uid small))
        | inr over ↦
            let late : made + lifetime ≤ now =
              omega (arith, ltb-false→le now t.access_expire over) in
            rw (over, lawful.rejects secret _ t.access_token now signed late) refl
      ]
