-- ===== src/Tests/Settings.antt =====
-- The configuration's validation at a concrete configuration.
use metricz_exporter.Base.{◌≡◌, ◌↔◌, refl, Bool, true, String, none, some, [], ◌∷◌}
use metricz_exporter.Config.{validate, duplicate_instance_id}
use metricz_exporter.Config.Validity.{IsValid, validate-none}
use metricz_exporter.Tests.{config, server}

abbrev any_label : String → Bool
any_label name = true

accepts : validate any_label config ≡ none
unfolding validate
accepts = refl

refuses_twins :
    validate any_label (record config { servers = server "a" ∷ server "a" ∷ [] })
    ≡ some (duplicate_instance_id "a")
unfolding validate
refuses_twins = refl

validate-none_example : (validate any_label config ≡ none) ↔ IsValid any_label config
validate-none_example = validate-none any_label config
