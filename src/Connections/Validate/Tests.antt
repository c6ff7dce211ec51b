-- ===== src/Connections/Validate/Tests.antt =====
-- A request that is accepted and one that is not.
use stardelt_nova.Prelude.{◌≡◌, refl, ◌↔◌, none, some, [], ◌∷◌}
use stardelt_nova.Prelude.Results.{ok, err}
use stardelt_nova.Text.{byte_len}
use stardelt_nova.Map.{contains, contains_key}
use stardelt_nova.Names.{valid_connection_name, setting_name_ok, key_ok}
use stardelt_nova.Connections.Types.{personal, group, NewConnection}
use stardelt_nova.Connections.Validate.{
  scope_rules, check_setting, check_secret, secret_like, refresh_ok, type_rules, validate_new,
}
use stardelt_nova.Connections.Validate.Laws.{IsAcceptable, validate_new_iff}

abbrev request : NewConnection
request = record {
  name = "crm";
  kind = "postgresql";
  scope = personal;
  owner_group = none;
  usable_by = [];
  config = ("host", "db.example.org") ∷ [];
  secret = ("password", "hunter2") ∷ ("user", "ann") ∷ [];
  refresh_interval = some "15m";
}

accepted : validate_new request ≡ ok tt
unfolding validate_new valid_connection_name contains contains_key scope_rules check_setting
    setting_name_ok secret_like check_secret key_ok refresh_ok type_rules byte_len
accepted = refl

abbrev ownerless : NewConnection
ownerless = record {
  name = "crm";
  kind = "postgresql";
  scope = group;
  owner_group = none;
  usable_by = [];
  config = [];
  secret = [];
  refresh_interval = none;
}

refused : validate_new ownerless ≡ err "a group connection needs a valid ownerGroup and no usableBy"
unfolding validate_new valid_connection_name contains contains_key scope_rules check_setting
    setting_name_ok secret_like check_secret key_ok refresh_ok type_rules byte_len
refused = refl

validate_new_iff_example : (validate_new request ≡ ok tt) ↔ IsAcceptable request
validate_new_iff_example = validate_new_iff request
