-- ===== src/Target/Tests.antt =====
-- The properties of the target at concrete inputs.
use prometheus_ws_proxy_clie.Base.{◌≡◌, refl, ◌++◌, some, ok, Bytes, codes, arith}
use prometheus_ws_proxy_clie.Target.{UrlLib, Target, parse, split_path}
use prometheus_ws_proxy_clie.Target.Paths.{paths_of, split_path_forms}
use prometheus_ws_proxy_clie.Target.Schemes.{IsUrlLib, AgreeOn, parse-AgreeOn}

split_path_forms_example :
    (split_path (codes "/proxy") ≡ paths_of (codes "/proxy"))
    × (split_path (codes "/proxy" ++ codes "/") ≡ paths_of (codes "/proxy"))
    × (split_path (codes "/proxy" ++ codes "/ws") ≡ paths_of (codes "/proxy"))
    × (split_path (codes "/proxy" ++ codes "/ws/") ≡ paths_of (codes "/proxy"))
unfolding split_path
split_path_forms_example = split_path_forms (codes "/proxy") (λ e. absurd (omega arith)) refl

-- A URL of a scheme and a path, on one host.
record SimpleUrl : Type 0 where
  scheme : Bytes
  path : Bytes

abbrev simple_lib : UrlLib SimpleUrl
simple_lib = record {
  parse_url = λ s. some (record { scheme = codes "https"; path = s });
  scheme = λ u. u.scheme;
  path = λ u. u.path;
  clear_fragment = λ u. u;
  clear_query = λ u. u;
  set_scheme = λ s u. some (record u { scheme = s });
  set_path = λ p u. record u { path = p };
  with_segments = λ _ u. some u;
}

simple_lib-IsUrlLib : IsUrlLib simple_lib
simple_lib-IsUrlLib = record {
  set_scheme_sets = λ s u v fine e. ground arith;
  set_path_keeps = λ p u. refl;
}

abbrev proxy_target : Target SimpleUrl
proxy_target = record {
  ws_url = record { scheme = codes "wss"; path = codes "/proxy/ws/" };
  response_base = record { scheme = codes "https"; path = codes "/proxy/" };
}

parse_proxy : parse simple_lib (codes "/proxy") ≡ ok proxy_target
unfolding parse
parse_proxy = refl

parse-AgreeOn_example :
    (source : SimpleUrl) × (simple_lib.parse_url (codes "/proxy") ≡ some source)
    × AgreeOn source.scheme (codes "wss") (codes "https")
parse-AgreeOn_example =
    parse-AgreeOn simple_lib simple_lib-IsUrlLib (codes "/proxy") proxy_target parse_proxy
