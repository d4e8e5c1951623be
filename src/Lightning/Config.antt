-- ===== src/Lightning/Config.antt =====
-- crates/lightning_node/src/main.rs: what `main` makes of its environment, whose variables are
-- arguments.
use lightining_pass.Base.{
  Bool, true, false, ◌||◌, Option, none, some, Text, codes, text_eq, if◌then◌else◌, unwrap_or, ◌≡◌,
  ◌≢◌, sym, ap, ◌∙◌, subst, [], ◌↔◌, ◌⊎◌, text_eq_iff, Bool-cases, inl, inr, refl, arith,
}
use mathlib.Core.Option
use lightining_pass.Text.Case.{
  to_lowercase, to_ascii_lowercase, eq_ignore_ascii_case, eq_ignore_ascii_case_iff,
}
use lightining_pass.Lightning.Proof.{AppConfig, demo_config, default_config}

pub data Network : Type 0 where
  bitcoin : Network
  signet : Network
  regtest : Network

unfoldable pub parse_network : Option Text → Network
parse_network value =
    let name = to_lowercase (unwrap_or value (codes "signet")) in
    if text_eq name (codes "bitcoin") || text_eq name (codes "mainnet")
    then bitcoin
    else (if text_eq name (codes "signet")
        then signet
        else (if text_eq name (codes "regtest") then regtest else signet))

-- `LIGHTNING_PASS_DEMO`
unfoldable pub demo_mode_of : Option Text → Bool
demo_mode_of val =
    unwrap_or (Option.map (λ v. text_eq v (codes "1") || eq_ignore_ascii_case v (codes "true")) val)
      false

-- The configuration that `main` starts with.
unfoldable pub config_of : Option Text → AppConfig
unfolding demo_mode_of
config_of val = if demo_mode_of val then demo_config else default_config (codes "live-event")

signet_or_regtest : (a b : Bool) → (if a then signet else (if b then regtest else signet)) ≢ bitcoin
signet_or_regtest a b h = ground arith

bitcoin_or_signet : (a b : Bool) → (if a then bitcoin else (if b then signet else signet)) ≢ regtest
bitcoin_or_signet a b h = ground arith

-- A value reads as the main network exactly when it is bitcoin or mainnet, and as regtest exactly when
-- it is regtest, in any case of its letters; every other value, and none, reads as signet.
pub parse_network_iff :
    (value : Text)
    → ((parse_network (some value) ≡ bitcoin)
        ↔ ((to_lowercase value ≡ codes "bitcoin") ⊎ (to_lowercase value ≡ codes "mainnet")))
      × ((parse_network (some value) ≡ regtest) ↔ (to_lowercase value ≡ codes "regtest"))
      × (parse_network none ≡ signet)
unfolding parse_network text_eq to_lowercase to_ascii_lowercase
parse_network_iff value = (
  (
    λ h. elim (Bool-cases (text_eq (to_lowercase value) (codes "bitcoin"))) [
      | inl e ↦ inl ((text_eq_iff _ _).0 e)
      | inr e ↦ elim (Bool-cases (text_eq (to_lowercase value) (codes "mainnet"))) [
        | inl e' ↦ inr ((text_eq_iff _ _).0 e')
        | inr e' ↦ absurd (signet_or_regtest _ _ (rw (e, e') at h))
      ]
    ],
    λ h. elim h [ inl e ↦ rw e refl | inr e ↦ rw e refl ],
  ),
  (
    λ h. elim (Bool-cases (text_eq (to_lowercase value) (codes "regtest"))) [
      | inl e ↦ (text_eq_iff _ _).0 e
      | inr e ↦ absurd (bitcoin_or_signet _ _ (rw e at h))
    ],
    λ e. rw e refl,
  ),
  refl,
)

-- The network that a value names: bitcoin or mainnet, or regtest, in any case of its letters; any other
-- value, and none, means signet.
pub data NetworkOf (value : Option Text) (n : Network) : Type 0 where
  on_bitcoin :
      (name : Text)
      → value ≡ some name
      → (to_lowercase name ≡ codes "bitcoin") ⊎ (to_lowercase name ≡ codes "mainnet")
      → n ≡ bitcoin
      → NetworkOf value n
  on_regtest :
      (name : Text)
      → value ≡ some name
      → to_lowercase name ≡ codes "regtest"
      → n ≡ regtest
      → NetworkOf value n
  on_signet :
      ((name : Text)
        → value ≡ some name
        → (to_lowercase name ≢ codes "bitcoin")
          × (to_lowercase name ≢ codes "mainnet")
          × (to_lowercase name ≢ codes "regtest"))
      → n ≡ signet
      → NetworkOf value n

differs : (s t : Text) → text_eq s t ≡ false → s ≢ t
differs s t h e = ground (arith, text_eq_iff s t)

not_eq : (s t : Text) → s ≢ t → text_eq s t ≡ false
not_eq s t h = ground (arith, text_eq_iff s t)

signet_left : (b : Bool) → (if b then signet else signet) ≡ signet
signet_left true = refl
signet_left false = refl

parse_network-signet :
    (name : Text)
    → to_lowercase name ≢ codes "bitcoin"
    → to_lowercase name ≢ codes "mainnet"
    → to_lowercase name ≢ codes "regtest"
    → parse_network (some name) ≡ signet
unfolding parse_network
parse_network-signet name h h' h'' =
    rw (not_eq _ _ h, not_eq _ _ h', not_eq _ _ h'') (signet_left _)

parse_network-NetworkOf : (value : Option Text) → NetworkOf value (parse_network value)
parse_network-NetworkOf none = on_signet (λ name e. absurd (ground arith)) (parse_network_iff []).2
parse_network-NetworkOf (some v) =
    let (main, regtest_, unset) = parse_network_iff v in
    elim (Bool-cases (text_eq (to_lowercase v) (codes "bitcoin"))) [
      | inl e ↦ let q = inl ((text_eq_iff _ _).0 e) in on_bitcoin v refl q (main.1 q)
      | inr e ↦ elim (Bool-cases (text_eq (to_lowercase v) (codes "mainnet"))) [
        | inl e' ↦ let q = inr ((text_eq_iff _ _).0 e') in on_bitcoin v refl q (main.1 q)
        | inr e' ↦ elim (Bool-cases (text_eq (to_lowercase v) (codes "regtest"))) [
          | inl e'' ↦ let q = (text_eq_iff _ _).0 e'' in on_regtest v refl q (regtest_.1 q)
          | inr e'' ↦
              on_signet
                (λ name same.
                  subst
                    (λ t.
                      (to_lowercase t ≢ codes "bitcoin")
                      × (to_lowercase t ≢ codes "mainnet")
                      × (to_lowercase t ≢ codes "regtest"))
                    (Option.some-injective v name same)
                    (differs _ _ e, differs _ _ e', differs _ _ e''))
                (parse_network-signet v (differs _ _ e) (differs _ _ e') (differs _ _ e''))
        ]
      ]
    ]

NetworkOf-parse_network :
    (value : Option Text) (n : Network) → NetworkOf value n → parse_network value ≡ n
NetworkOf-parse_network value n (on_bitcoin name e named same) =
    ap parse_network e ∙ ((parse_network_iff name).0).1 named ∙ sym same
NetworkOf-parse_network value n (on_regtest name e named same) =
    ap parse_network e ∙ ((parse_network_iff name).1).1 named ∙ sym same
NetworkOf-parse_network none n (on_signet other same) = (parse_network_iff []).2 ∙ sym same
NetworkOf-parse_network (some name) n (on_signet other same) =
    let (h, h', h'') = other name refl in parse_network-signet name h h' h'' ∙ sym same

pub parse_network-NetworkOf_iff :
    (value : Option Text) (n : Network) → (parse_network value ≡ n) ↔ NetworkOf value n
parse_network-NetworkOf_iff value n = (
  λ e. subst (NetworkOf value) e (parse_network-NetworkOf value),
  NetworkOf-parse_network value n,
)

pub differ : demo_config ≢ default_config (codes "live-event")
unfolding demo_config default_config
differ h = ground arith

lower_true :
    (v : Text) → eq_ignore_ascii_case v (codes "true") ≡ true → to_lowercase v ≡ codes "true"
unfolding to_lowercase to_ascii_lowercase
lower_true v h = (eq_ignore_ascii_case_iff v (codes "true")).0 h

true_lower :
    (v : Text) → to_lowercase v ≡ codes "true" → eq_ignore_ascii_case v (codes "true") ≡ true
unfolding to_lowercase to_ascii_lowercase
true_lower v h = (eq_ignore_ascii_case_iff v (codes "true")).1 h

either :
    (b : Bool)
    → (if b || true then demo_config else default_config (codes "live-event")) ≡ demo_config
either b = ground arith

-- The demo configuration is taken exactly when the variable is set, to 1 or, in any case of its
-- letters, to true.
pub config_of_iff :
    (val : Option Text)
    → (config_of val ≡ demo_config)
      ↔ ((v : Text) × (val ≡ some v) × ((v ≡ codes "1") ⊎ (to_lowercase v ≡ codes "true")))
unfolding config_of demo_mode_of text_eq
config_of_iff none = (λ h. absurd (differ (sym h)), λ (v, e, c). absurd (ground arith))
config_of_iff (some v) = (
  λ h. elim (Bool-cases (text_eq v (codes "1"))) [
    | inl e ↦ (v, refl, inl ((text_eq_iff _ _).0 e))
    | inr e ↦ elim (Bool-cases (eq_ignore_ascii_case v (codes "true"))) [
      | inl e' ↦ (v, refl, inr (lower_true v e'))
      | inr e' ↦ absurd (differ (sym (rw (e, e') at h)))
    ]
  ],
  λ (w, same, c).
      let e = Option.some-injective v w same in
      elim c [
        | inl one ↦ rw (e, one) refl
        | inr true_ ↦ rw (e, true_lower w true_) (either (text_eq w (codes "1")))
      ],
)
