-- ===== src/Target/Schemes.antt =====
-- src/target.rs: the schemes of a target, and its response URLs.
use prometheus_ws_proxy_clie.Base.{
  ◌≡◌, ◌⊎◌, inl, inr, some, ok, refl, true, [], ◌∷◌, bytes_eq, Bytes, codes, arith, Option-cases,
}
use prometheus_ws_proxy_clie.Target.{UrlLib, Target, target_schemes, parse, assemble, split_path}

abbrev pub IsSupported : Bytes → Type 0
IsSupported s = (s ≡ codes "ws") ⊎ (s ≡ codes "http") ⊎ (s ≡ codes "wss") ⊎ (s ≡ codes "https")

-- The documented behaviour of the setters: one of the four schemes in lower case that is set is the
-- scheme, and a path leaves it.
pub record IsUrlLib {Url : Type 0} (lib : UrlLib Url) : Type 0 where
  pub set_scheme_sets :
      (s : Bytes) (u v : Url) → IsSupported s → lib.set_scheme s u ≡ some v → lib.scheme v ≡ s
  pub set_path_keeps : (p : Bytes) (u : Url) → lib.scheme (lib.set_path p u) ≡ lib.scheme u

-- The two transports are plain if that of the source is, and encrypted if it is.
abbrev pub AgreeOn : Bytes → Bytes → Bytes → Type 0
AgreeOn source ws http =
    (((source ≡ codes "http") ⊎ (source ≡ codes "ws")) × (ws ≡ codes "ws") × (http ≡ codes "http"))
    ⊎ (((source ≡ codes "https") ⊎ (source ≡ codes "wss"))
        × (ws ≡ codes "wss")
        × (http ≡ codes "https"))

bytes_eq_sound : (a b : Bytes) → bytes_eq a b ≡ true → a ≡ b
bytes_eq_sound [] [] e = refl
bytes_eq_sound [] (b ∷ bs) e = cc
bytes_eq_sound (a ∷ more) [] e = cc
bytes_eq_sound (a ∷ more) (b ∷ bs) e = ground (arith, e, bytes_eq_sound more bs)

target_schemes-AgreeOn : (s a b : Bytes) → target_schemes s ≡ some (a, b) → AgreeOn s a b
unfolding target_schemes
target_schemes-AgreeOn s a b e = ground (
  arith,
  e,
  bytes_eq_sound s (codes "http"),
  bytes_eq_sound s (codes "https"),
  bytes_eq_sound s (codes "ws"),
  bytes_eq_sound s (codes "wss"),
)

target_schemes-IsSupported :
    (s a b : Bytes) → target_schemes s ≡ some (a, b) → IsSupported a × IsSupported b
unfolding target_schemes
target_schemes-IsSupported s a b e = ground (arith, target_schemes-AgreeOn s a b e)

module _ {Url : Type 0} (lib : UrlLib Url) (laws : IsUrlLib lib) where
  assemble-schemes :
      (source : Url) (a b base ws : Bytes) (t : Target Url)
      → IsSupported a
      → IsSupported b
      → assemble lib source (a, b) (base, ws) ≡ ok t
      → (lib.scheme t.ws_url ≡ a) × (lib.scheme t.response_base ≡ b)
  unfolding assemble
  assemble-schemes source a b base ws t fine_a fine_b e =
      elim (Option-cases (lib.set_scheme a source)) [
        | inl refused ↦ cc (rw refused at e)
        | inr (u, eu) ↦ elim (Option-cases (lib.set_scheme b source)) [
          | inl refused ↦ cc (rw (eu, refused) at e)
          | inr (v, ev) ↦ ground (
            arith,
            laws.set_path_keeps ws u,
            laws.set_path_keeps base v,
            laws.set_scheme_sets a source u fine_a eu,
            laws.set_scheme_sets b source v fine_b ev,
          )
        ]
      ]

  -- A target is parsed only from a URL of one of the four schemes; its WebSocket URL and its
  -- response base then have the schemes `ws` and `http` if that URL has one of these, and `wss` and
  -- `https` if it has one of those.
  pub parse-AgreeOn :
      (value : Bytes) (t : Target Url)
      → parse lib value ≡ ok t
      → (source : Url) × (lib.parse_url value ≡ some source)
        × AgreeOn (lib.scheme source) (lib.scheme t.ws_url) (lib.scheme t.response_base)
  unfolding parse
  parse-AgreeOn value t e = elim (Option-cases (lib.parse_url value)) [
    | inl refused ↦ cc (rw (refused, parse) at e)
    | inr (source, es) ↦ elim (Option-cases (target_schemes (lib.scheme source))) [
      | inl unsupported ↦ cc (rw (es, parse, unsupported) at e)
      | inr ((a, b), eq) ↦
          let cleared = lib.clear_query (lib.clear_fragment source) in
          let (base, ws) = split_path (lib.path cleared) in
          let agree = target_schemes-AgreeOn (lib.scheme source) a b eq in
          let (fine_a, fine_b) = target_schemes-IsSupported (lib.scheme source) a b eq in
          let (same_ws, same_http) =
            assemble-schemes cleared a b base ws t fine_a fine_b (rw (es, parse, eq) at e) in
          (source, es, rw (same_ws, same_http) agree)
    ]
  ]
