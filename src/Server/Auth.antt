-- ===== src/Server/Auth.antt =====
-- internal/server/auth.go. `credentials` is what r.BasicAuth() reads from the request.
pub mod Access
use metricz_exporter.Base.{
  Bool, true, false, not, ◌&&◌, ◌||◌, if◌then◌else◌, String, str_eq, Option, none, some, [], ◌∷◌,
}
use metricz_exporter.Config.{AuthConfig}
use metricz_exporter.Server.{Response, text}

-- subtle.ConstantTimeCompare decides the equality of the two texts.
unfoldable pub check_credentials : AuthConfig → String → String → Bool
check_credentials auth user pass =
    let user_match = str_eq user auth.user in
    let pass_match = str_eq pass auth.pass in user_match && pass_match

abbrev pub admitted : AuthConfig → Option (String × String) → Bool
admitted auth none = false
admitted auth (some (user, pass)) = check_credentials auth user pass

abbrev pub unauthorized : Response
unauthorized = record {
  status = 401;
  headers = ("WWW-Authenticate", "Basic realm=\"MetricZ Exporter\"") ∷ [];
  body = text "Unauthorized";
}

-- The middleware around `next`, whose state is S.
unfoldable pub basic_auth :
    {S : Type 0} → AuthConfig → (S → S × Response) → Option (String × String) → S → S × Response
unfolding check_credentials
basic_auth auth next credentials s =
    if str_eq auth.user "" || str_eq auth.pass ""
    then next s
    else if not (admitted auth credentials)
    then (s, unauthorized)
    else next s
