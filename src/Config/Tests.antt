-- ===== src/Config/Tests.antt =====
-- The properties of the configuration at concrete inputs.
use prometheus_ws_proxy_clie.Base.{
  ◌≡◌, ◌↔◌, refl, false, inr, none, some, ok, [], ◌∷◌, codes, Result, trim,
}
use prometheus_ws_proxy_clie.Error.{BoxError}
use prometheus_ws_proxy_clie.Config.{
  Config, Response, Request, put_token, get_instance, Environment, resolve_ec2, from_json,
}
use prometheus_ws_proxy_clie.Config.Resolved.{
  IsResolved, IsValid, from_json-IsResolved, resolve_ec2-v1,
}
use prometheus_ws_proxy_clie.Config.Shown.{debug_fields, SamePublicly, debug_fields-SamePublicly}

abbrev ec2_config : Config
ec2_config = record {
  instance' = codes "ec2";
  target = codes "http://example.test/";
  resources = (codes "node", codes "http://127.0.0.1:9100/metrics") ∷ [];
  cf_access_enabled = false;
  cf_access_key = [];
  cf_access_secret = [];
  ec2_meta_domain = codes "http://m/";
}

abbrev i_v1 : Response
i_v1 = record { status = 200; text = some (codes " i-v1\n") }

abbrev refusal : Response
refusal = record { status = 401; text = some [] }

-- A service that gives a token and then refuses it.
abbrev refusing : Request → Result BoxError Response
refusing (put_token url) = ok (record { status = 200; text = some (codes "token") })
refusing (get_instance url (some token)) = ok refusal
refusing (get_instance url none) = ok i_v1

abbrev refusing_environment : Environment
refusing_environment = record {
  send = refusing;
  header_value = λ v. some v;
  from_slice = λ _. some ec2_config;
}

resolve_ec2-v1_example :
    (resolve_ec2 refusing_environment (codes "http://m/")).1 ≡ ok (codes "i-v1")
unfolding trim
resolve_ec2-v1_example =
    resolve_ec2-v1 refusing_environment (codes "http://m/") (codes " i-v1\n") b'i' (codes "-v1")
      i_v1 (inr (codes "token", codes "token", refusal, refl, refl, refl, refl)) refl refl refl refl

loaded : (from_json refusing_environment []).1 ≡ ok (record ec2_config { instance' = codes "i-v1" })
unfolding from_json trim
loaded = refl

from_json-IsResolved_example :
    (c : Config) × (some ec2_config ≡ some c)
    × IsResolved c (record ec2_config { instance' = codes "i-v1" })
    × IsValid (record ec2_config { instance' = codes "i-v1" })
from_json-IsResolved_example =
    from_json-IsResolved refusing_environment [] (record ec2_config { instance' = codes "i-v1" })
      loaded

abbrev secret_config : Config
secret_config = record ec2_config { cf_access_secret = codes "secret" }

debug_fields-SamePublicly_example :
    (debug_fields ec2_config ≡ debug_fields secret_config) ↔ SamePublicly ec2_config secret_config
debug_fields-SamePublicly_example = debug_fields-SamePublicly ec2_config secret_config
