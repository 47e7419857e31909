-- ===== src/Server/Auth/Access.antt =====
-- Who gets past the Basic Auth middleware: auth.go.
use metricz_exporter.Base.{
  ◌≡◌, ◌≢◌, ◌⊎◌, inl, inr, str_eq, str_eq_iff, if_cases, not, ◌||◌, String, Option, none, some,
  arith,
}
use metricz_exporter.Config.{AuthConfig}
use metricz_exporter.Server.{Response}
use metricz_exporter.Server.Auth.{admitted, unauthorized, basic_auth}

-- Auth is off, or the credentials are the configured ones.
abbrev pub IsAllowed : AuthConfig → Option (String × String) → Type 0
IsAllowed auth credentials =
    (auth.user ≡ "") ⊎ (auth.pass ≡ "") ⊎ (credentials ≡ some (auth.user, auth.pass))

module _ {S : Type 0} (auth : AuthConfig) (next : S → S × Response) (s : S) where
  -- If the user or the password is not configured, or the credentials are the configured ones, the
  -- middleware runs the handler behind it.
  pub basic_auth-allowed :
      (credentials : Option (String × String))
      → IsAllowed auth credentials
      → basic_auth auth next credentials s ≡ next s
  unfolding basic_auth
  basic_auth-allowed none allowed = ground (arith, str_eq_iff auth.user "", str_eq_iff auth.pass "")
  basic_auth-allowed (some (user, pass)) allowed = ground (
    arith,
    str_eq_iff auth.user "",
    str_eq_iff auth.pass "",
    str_eq_iff user auth.user,
    str_eq_iff pass auth.pass,
  )

  -- If authentication is configured and the credentials are missing or are not the configured
  -- ones, the middleware answers 401 and the handler behind it does not run.
  pub basic_auth-denied :
      (credentials : Option (String × String))
      → ¬ IsAllowed auth credentials
      → basic_auth auth next credentials s ≡ (s, unauthorized)
  unfolding basic_auth
  basic_auth-denied none denied =
      let no_user : auth.user ≢ "" = λ e. denied (inl e) in
      let no_pass : auth.pass ≢ "" = λ e. denied (inr (inl e)) in
      ground (arith, str_eq_iff auth.user "", str_eq_iff auth.pass "")
  basic_auth-denied (some (user, pass)) denied =
      let no_user : auth.user ≢ "" = λ e. denied (inl e) in
      let no_pass : auth.pass ≢ "" = λ e. denied (inr (inl e)) in
      let other : ◌≢◌ {A = Option (String × String)} (some (user, pass))
          (some (auth.user, auth.pass)) =
        λ e. denied (inr (inr e)) in
      ground (
        arith,
        str_eq_iff auth.user "",
        str_eq_iff auth.pass "",
        str_eq_iff user auth.user,
        str_eq_iff pass auth.pass,
      )

  pub basic_auth_cases {κ} :
      (P : S × Response → Type κ)
      → P (next s)
      → P (s, unauthorized)
      → (credentials : Option (String × String)) → P (basic_auth auth next credentials s)
  unfolding basic_auth
  basic_auth_cases P runs stops credentials =
      if_cases P (str_eq auth.user "" || str_eq auth.pass "") (λ off. runs)
        λ on. if_cases P (not (admitted auth credentials)) (λ denied. stops) λ allowed. runs
