-- ===== src/Http/Auth.antt =====
-- internal/transport/http/middleware/auth.go
use ffgif.Base.{not, ◌||◌, Text, [], codes, text_eq, has_prefix, trim_prefix, if◌then◌else◌}
use ffgif.World.{
  Io, Result, ok, err, pure, catch, ◌>>=◌, External, Payload, Error, errors_is, token_expired,
  cache_miss,
}
use ffgif.Pkg
use ffgif.Pkg.{Config}
use ffgif.Cache
use ffgif.Auth.Service.{blocklist_key}
use ffgif.Http.Response.{Response, unauthorized}

abbrev missing : Response
missing = unauthorized "Bearer realm=\"ffgif\", error=\"invalid_request\""

abbrev token_error : Error → Response
token_error e =
    if errors_is e token_expired
    then unauthorized
        "Bearer realm=\"ffgif\", error=\"invalid_token\", error_description=\"token expired\""
    else unauthorized
        "Bearer realm=\"ffgif\", error=\"invalid_token\", error_description=\"invalid token\""

abbrev pub blocked : Response
blocked =
    unauthorized
      "Bearer realm=\"ffgif\", error=\"invalid_token\", error_description=\"token on blocklist\""

abbrev unverifiable : Response
unverifiable =
    unauthorized
      "Bearer realm=\"ffgif\", error=\"invalid_token\", error_description=\"unable to verify token status\""

-- After the look at the blocklist: `admit` is the rest of the chain.
abbrev check_blocklist : Io Response → Result Text → Io Response
check_blocklist admit (ok value) = if text_eq value [] then admit else pure blocked
check_blocklist admit (err e) = if errors_is e cache_miss then admit else pure unverifiable

module _ (x : External) (cfg : Config) (next : Payload → Text → Io Response) where
  -- A token that parses, against the blocklist.
  unfoldable pub check_token : Text → Result Payload → Io Response
  unfolding Cache.get
  check_token token (err e) = pure (token_error e)
  check_token token (ok claims) = do
    entry ← catch (Cache.get (blocklist_key token))
    check_blocklist (next claims token) entry

  -- The middleware on the value of the header Authorization, "" if there is none. The handler
  -- behind it gets the claims and the token.
  unfoldable pub auth : Text → Io Response
  unfolding Pkg.verify check_token
  auth header =
      if text_eq header [] || not (has_prefix header (codes "Bearer ")) then pure missing else do
        let token = trim_prefix header (codes "Bearer ")
        claims ← catch (Pkg.verify x cfg token)
        check_token token claims
