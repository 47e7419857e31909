-- ===== src/Config/Validity.antt =====
-- Which configurations validate accepts: file.go.
use metricz_exporter.Base.{
  ℕ, suc, ◌≡◌, ◌≢◌, ◌↔◌, refl, Bool, true, false, String, str_eq, str_eq_iff, codes, Option, none,
  some, List, [], ◌∷◌, All, arith,
}
use metricz_exporter.Base.Map.{Map}
use metricz_exporter.Config.{
  A2sConfig, RconConfig, ServerDefinition, Config, ConfigError, ◌then_check◌, error_if,
  validate_a2s, validate_rcon, seen, validate_servers, is_denied, has_reserved_prefix,
  validate_extra_labels, validate,
}

-- An endpoint that is configured has an address, and RCon a password.
abbrev pub HasA2sAddress : Option A2sConfig → Type 0
HasA2sAddress none = Unit
HasA2sAddress (some a2s) = a2s.address ≢ ""

abbrev pub HasRconAccess : Option RconConfig → Type 0
HasRconAccess none = Unit
HasRconAccess (some rcon) = (rcon.address ≢ "") × (rcon.password ≢ "")

pub record IsValidServer (srv : ServerDefinition) : Type 0 where
  pub named : srv.instance_id ≢ ""
  pub queried : HasA2sAddress srv.a2s
  pub managed : HasRconAccess srv.rcon

-- No id is among those seen, nor occurs twice.
abbrev pub AreFresh : List String → List ServerDefinition → Type 0
AreFresh ids [] = Unit
AreFresh ids (srv ∷ servers) =
    (seen srv.instance_id ids ≡ false) × AreFresh (srv.instance_id ∷ ids) servers

abbrev pub IsValidLabel : (String → Bool) → String × String → Type 0
IsValidLabel is_valid_label l =
    (l.0 ≢ "")
    × (l.1 ≢ "")
    × (is_denied l.0 ≡ false)
    × (has_reserved_prefix (codes l.0) ≡ false)
    × (is_valid_label l.0 ≡ true)

-- What a valid configuration is.
pub record IsValid (is_valid_label : String → Bool) (cfg : Config) : Type 0 where
  pub servers : All IsValidServer cfg.servers
  pub fresh : AreFresh [] cfg.servers
  pub labels : All (IsValidLabel is_valid_label) cfg.app.prometheus.extra_labels

then_check-none : (a b : Option ConfigError) → ((a then_check b) ≡ none) ↔ ((a ≡ none) × (b ≡ none))
then_check-none none b = (λ h. (refl, h), λ h. h.1)
then_check-none (some e) b = (λ h. cc, λ h. cc h.0)

error_if-none : (b : Bool) (e : ConfigError) → (error_if b e ≡ none) ↔ (b ≡ false)
error_if-none b e = ground arith

ne_empty : (s : String) → (str_eq s "" ≡ false) ↔ (s ≢ "")
ne_empty s = ground (arith, str_eq_iff s "")

validate_a2s-none :
    (id : String) (a2s : Option A2sConfig) → (validate_a2s id a2s ≡ none) ↔ HasA2sAddress a2s
unfolding validate_a2s
validate_a2s-none id none = (λ _. tt, λ _. refl)
validate_a2s-none id (some a2s) = ground (arith, str_eq_iff a2s.address "")

validate_rcon-none :
    (id : String) (rcon : Option RconConfig) → (validate_rcon id rcon ≡ none) ↔ HasRconAccess rcon
unfolding validate_rcon
validate_rcon-none id none = (λ _. tt, λ _. refl)
validate_rcon-none id (some rcon) =
    ground (arith, str_eq_iff rcon.address "", str_eq_iff rcon.password "")

abbrev Accepted : List String → List ServerDefinition → Type 0
Accepted ids servers = All IsValidServer servers × AreFresh ids servers

validate_servers_sound :
    (i : ℕ) (ids : List String) (servers : List ServerDefinition)
    → validate_servers i ids servers ≡ none
    → Accepted ids servers
unfolding validate_servers
validate_servers_sound i ids [] h = (tt, tt)
validate_servers_sound i ids (srv ∷ servers) h =
    let (named, h1) = (then_check-none _ _).0 h in
    let (fresh, h2) = (then_check-none _ _).0 h1 in
    let (queried, h3) = (then_check-none _ _).0 h2 in
    let (managed, h4) = (then_check-none _ _).0 h3 in
    let (valid, distinct) = validate_servers_sound (suc i) (srv.instance_id ∷ ids) servers h4 in
    (
      (
        record {
          named = (ne_empty _).0 ((error_if-none _ _).0 named);
          queried = (validate_a2s-none _ _).0 queried;
          managed = (validate_rcon-none _ _).0 managed;
        },
        valid,
      ),
      ((error_if-none _ _).0 fresh, distinct),
    )

validate_servers_complete :
    (i : ℕ) (ids : List String) (servers : List ServerDefinition)
    → Accepted ids servers
    → validate_servers i ids servers ≡ none
unfolding validate_servers
validate_servers_complete i ids [] h = refl
validate_servers_complete i ids (srv ∷ servers) ((valid, all), (fresh, distinct)) =
    (then_check-none _ _).1 (
      (error_if-none _ _).1 ((ne_empty _).1 valid.named),
      (then_check-none _ _).1 (
        (error_if-none _ _).1 fresh,
        (then_check-none _ _).1 (
          (validate_a2s-none _ _).1 valid.queried,
          (then_check-none _ _).1 (
            (validate_rcon-none _ _).1 valid.managed,
            validate_servers_complete (suc i) (srv.instance_id ∷ ids) servers (all, distinct),
          ),
        ),
      ),
    )

validate_extra_labels_iff :
    (is_valid_label : String → Bool) (labels : Map String String)
    → (validate_extra_labels is_valid_label labels ≡ none)
      ↔ All (IsValidLabel is_valid_label) labels
unfolding validate_extra_labels
validate_extra_labels_iff ok [] = (λ _. tt, λ _. refl)
validate_extra_labels_iff ok ((k, v) ∷ labels) =
    ground (arith, str_eq_iff k "", str_eq_iff v "", validate_extra_labels_iff ok labels)

-- Validation reports no error exactly if every server has an id, no id occurs twice, each
-- configured A2S has an address and each configured RCon an address and a password, and every
-- extra label has a key and a value, is not reserved by name or prefix, and is a valid label name.
pub validate-none :
    (is_valid_label : String → Bool) (cfg : Config)
    → (validate is_valid_label cfg ≡ none) ↔ IsValid is_valid_label cfg
unfolding validate
validate-none ok cfg = (
  λ h.
      let (a, b) = (then_check-none _ _).0 h in
      let (valid, fresh) = validate_servers_sound 0 [] cfg.servers a in
      record { servers = valid; fresh = fresh; labels = (validate_extra_labels_iff ok _).0 b },
  λ v. (then_check-none _ _).1 (
    validate_servers_complete 0 [] cfg.servers (v.servers, v.fresh),
    (validate_extra_labels_iff ok _).1 v.labels,
  ),
)
