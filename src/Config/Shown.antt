-- ===== src/Config/Shown.antt =====
-- src/config.rs: the `Debug` output of a configuration.
use prometheus_ws_proxy_clie.Base.{◌≡◌, ◌↔◌, Bool, List, [], ◌∷◌, String, Bytes, codes, arith}
use prometheus_ws_proxy_clie.Config.{Config}

-- The values that are printed: a text, the names of the resources, or a flag.
pub data Shown : Type 0 where
  text : Bytes → Shown
  texts : List Bytes → Shown
  flag : Bool → Shown

-- `HashMap::keys`
abbrev pub keys : List (Bytes × Bytes) → List Bytes
keys [] = []
keys ((name, _) ∷ resources) = name ∷ keys resources

abbrev pub redacted : Shown
redacted = text (codes "[redacted]")

-- `debug_struct` is given the names and the values of the fields, in order.
unfoldable pub debug_fields : Config → List (String × Shown)
debug_fields c =
    ("instance", text c.instance')
    ∷ ("target", text c.target)
    ∷ ("resources", texts (keys c.resources))
    ∷ ("cf_access_enabled", flag c.cf_access_enabled)
    ∷ ("cf_access_key", redacted)
    ∷ ("cf_access_secret", redacted)
    ∷ ("ec2_meta_domain", text c.ec2_meta_domain)
    ∷ []

-- Two configurations differ in neither what identifies the client nor in what it connects to; their
-- keys, their secrets and the addresses of their resources may differ.
pub record SamePublicly (c d : Config) : Type 0 where
  pub instances : c.instance' ≡ d.instance'
  pub targets : c.target ≡ d.target
  pub resources : keys c.resources ≡ keys d.resources
  pub enabled : c.cf_access_enabled ≡ d.cf_access_enabled
  pub domains : c.ec2_meta_domain ≡ d.ec2_meta_domain

-- The `Debug` outputs of two configurations are the same exactly if they agree in the instance, the
-- target, the names of the resources, the flag and the metadata domain: neither the Cloudflare key
-- nor the secret nor the address of a resource can be told from them.
pub debug_fields-SamePublicly :
    (c d : Config) → (debug_fields c ≡ debug_fields d) ↔ SamePublicly c d
unfolding debug_fields
debug_fields-SamePublicly c d = (
  (λ e. record { instances = cc; targets = cc; resources = cc; enabled = cc; domains = cc }),
  λ s. ground (arith, s.instances, s.targets, s.resources, s.enabled, s.domains),
)
