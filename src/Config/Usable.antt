-- ===== src/Config/Usable.antt =====
-- What `Load` lets through.
use sherlock.Prelude.{
  ℕ, ◌≡◌, ◌≢◌, ◌↔◌, ◌⊎◌, inl, inr, refl, String, Bool, true, false, ◌&&◌, not, Option, none, some,
  str_eq, str_eq_sound, str_eq_complete, if◌then◌else◌, Result, ok, err, Bool-cases, subst, sym,
  ◌∙◌, arith, eq_iff,
}
use sherlock.Config.{Config, ReceiversConfig}
use sherlock.Config.Defaults.{defaults}
use sherlock.Config.Overrides.{Parsers, apply_env_overrides}
use sherlock.Config.Validation.{
  validate_receivers, validate, ReadFile, LoadError, after_file, validated, load, after_read,
  after_parse, contents, not_exist, unreadable,
}

-- Each enabled receiver has its secret.
pub record HasSecrets (r : ReceiversConfig) : Type 0 where
  pub alertmanager : (r.alertmanager.enabled ≡ false) ⊎ (r.alertmanager.secret ≢ "")
  pub grafana : (r.grafana.enabled ≡ false) ⊎ (r.grafana.hmac_secret ≢ "")
  pub github : (r.github.enabled ≡ false) ⊎ (r.github.webhook_secret ≢ "")
  pub gitlab : (r.gitlab.enabled ≡ false) ⊎ (r.gitlab.secret_token ≢ "")

pub record IsUsable {F : Type 0} (c : Config F) : Type 0 where
  pub address : c.server.address ≢ ""
  pub dsn : c.postgres.dsn ≢ ""
  pub url : c.nats.url ≢ ""
  pub mode : (c.slack.mode ≡ "socket") ⊎ (c.slack.mode ≡ "http") ⊎ (c.slack.mode ≡ "both")
  pub secrets : (c.server.strict_webhook_auth ≡ false) ⊎ HasSecrets c.receivers

-- One check of a chain passes.
if-eq-none_iff :
    (b : Bool) (m : String) (rest : Option String)
    → ((if b then some m else rest) ≡ none) ↔ ((b ≡ false) × (rest ≡ none))
if-eq-none_iff true m rest = ((λ h. absurd (cc)), (λ h. absurd (cc (h.0))))
if-eq-none_iff false m rest = ((λ h. (refl, h)), (λ h. h.1))

given_iff : (s : String) → (str_eq s "" ≡ false) ↔ (s ≢ "")
given_iff s = ((λ h e. cc (str_eq_complete s "" e)), (λ h. ground (arith, eq_iff s "")))

secret_iff :
    (enabled : Bool) (s : String)
    → ((enabled && str_eq s "") ≡ false) ↔ ((enabled ≡ false) ⊎ (s ≢ ""))
secret_iff true s = (
  (λ h. inr ((given_iff s).0 h)),
  (λ h. elim h [ inl e ↦ absurd (cc) | inr n ↦ (given_iff s).1 n ]),
)
secret_iff false s = ((λ h. inl refl), (λ h. refl))

mode_iff :
    (s : String)
    → ((not (str_eq s "socket") && not (str_eq s "http") && not (str_eq s "both")) ≡ false)
      ↔ ((s ≡ "socket") ⊎ (s ≡ "http") ⊎ (s ≡ "both"))
mode_iff s = ground (arith, eq_iff s "socket", eq_iff s "http", eq_iff s "both")

validate_receivers-eq-none_iff :
    (r : ReceiversConfig) → (validate_receivers r ≡ none) ↔ HasSecrets r
unfolding validate_receivers
validate_receivers-eq-none_iff r = (
  (λ h.
      let a = (if-eq-none_iff _ _ _).0 h in
      let g = (if-eq-none_iff _ _ _).0 a.1 in
      let hub = (if-eq-none_iff _ _ _).0 g.1 in
      let lab = (if-eq-none_iff _ _ _).0 hub.1 in
      record {
        alertmanager = (secret_iff r.alertmanager.enabled r.alertmanager.secret).0 a.0;
        grafana = (secret_iff r.grafana.enabled r.grafana.hmac_secret).0 g.0;
        github = (secret_iff r.github.enabled r.github.webhook_secret).0 hub.0;
        gitlab = (secret_iff r.gitlab.enabled r.gitlab.secret_token).0 lab.0;
      }),
  (λ s.
      rw
        (
          (secret_iff r.alertmanager.enabled r.alertmanager.secret).1 s.alertmanager,
          (secret_iff r.grafana.enabled r.grafana.hmac_secret).1 s.grafana,
          (secret_iff r.github.enabled r.github.webhook_secret).1 s.github,
          (secret_iff r.gitlab.enabled r.gitlab.secret_token).1 s.gitlab,
        )
        refl),
)

strict_iff :
    (strict : Bool) (r : ReceiversConfig)
    → ((if strict then validate_receivers r else none) ≡ none) ↔ ((strict ≡ false) ⊎ HasSecrets r)
strict_iff true r = (
  (λ h. inr ((validate_receivers-eq-none_iff r).0 h)),
  (λ h. elim h [ inl e ↦ absurd (cc) | inr s ↦ (validate_receivers-eq-none_iff r).1 s ]),
)
strict_iff false r = ((λ h. inl refl), (λ h. refl))

module _ {F : Type 0} (c : Config F) where
  -- The checks pass exactly for usable configurations.
  pub validate-eq-none_iff : (validate c ≡ none) ↔ IsUsable c
  unfolding validate
  validate-eq-none_iff = (
    (λ h.
        let a = (if-eq-none_iff _ _ _).0 h in
        let d = (if-eq-none_iff _ _ _).0 a.1 in
        let u = (if-eq-none_iff _ _ _).0 d.1 in
        let m = (if-eq-none_iff _ _ _).0 u.1 in
        record {
          address = (given_iff c.server.address).0 a.0;
          dsn = (given_iff c.postgres.dsn).0 d.0;
          url = (given_iff c.nats.url).0 u.0;
          mode = (mode_iff c.slack.mode).0 m.0;
          secrets = (strict_iff c.server.strict_webhook_auth c.receivers).0 m.1;
        }),
    (λ u.
        rw
          (
            (given_iff c.server.address).1 u.address,
            (given_iff c.postgres.dsn).1 u.dsn,
            (given_iff c.nats.url).1 u.url,
            (mode_iff c.slack.mode).1 u.mode,
          )
          ((strict_iff c.server.strict_webhook_auth c.receivers).1 u.secrets)),
  )

ok_ok :
    {E X F : Type 0} {a b : F}
    → ◌≡◌ {A = Result X F} (ok a) (ok b)
    → ◌≡◌ {A = Result E F} (ok a) (ok b)
ok_ok h = cc

module _ {E F : Type 0} (hundredths : ℕ → F) (unmarshal : String → Config F → Result E (Config F))
    (p : Parsers F) (env : String → String) where
  validated-IsUsable :
      (c : Config F) (checked : Option String) {d : Config F}
      → validate c ≡ checked
      → validated hundredths unmarshal p env c checked ≡ ok d
      → IsUsable d × (d ≡ c)
  validated-IsUsable c none {d} v h =
      let same : c ≡ d = cc in (subst IsUsable same ((validate-eq-none_iff c).0 v), sym same)
  validated-IsUsable c (some m) v h = absurd (cc)

  module _ (read_file : String → ReadFile E) (path : String) where
    -- Where the configuration comes from that the environment overrides.
    pub data IsBase (base : Config F) : Type 0 where
      unnamed : path ≡ "" → base ≡ defaults hundredths → IsBase base
      missing : read_file path ≡ not_exist → base ≡ defaults hundredths → IsBase base
      parsed :
          (text : String)
          → read_file path ≡ contents text
          → unmarshal text (defaults hundredths) ≡ ok base
          → IsBase base

    parse-IsBase :
        (text : String) (answer : Result E (Config F)) {base : Config F}
        → read_file path ≡ contents text
        → unmarshal text (defaults hundredths) ≡ answer
        → after_parse hundredths unmarshal p env answer ≡ ok base
        → IsBase base
    parse-IsBase text (ok c) e u h = parsed text e (u ∙ ok_ok h)
    parse-IsBase text (err x) e u h = absurd (cc)

    read-IsBase :
        (file : ReadFile E) {base : Config F}
        → read_file path ≡ file
        → after_read hundredths unmarshal p env file ≡ ok base
        → IsBase base
    read-IsBase not_exist e h = missing e (cc)
    read-IsBase (unreadable x) e h = absurd (cc)
    read-IsBase (contents text) e h =
        parse-IsBase text (unmarshal text (defaults hundredths)) e refl h

    after_file-IsUsable :
        (file : Result (LoadError E) (Config F)) {d : Config F}
        → ((base : Config F) → file ≡ ok base → IsBase base)
        → after_file hundredths unmarshal p env file ≡ ok d
        → IsUsable d × ((base : Config F) × IsBase base × (d ≡ apply_env_overrides p env base))
    after_file-IsUsable (err e) k h = absurd (cc)
    after_file-IsUsable (ok base) k h =
        let v =
          validated-IsUsable (apply_env_overrides p env base)
            (validate (apply_env_overrides p env base)) refl h in
        (v.0, (base, k base refl, v.1))

    -- What `Load` returns is usable, and it is the defaults, or what the file makes of them, with the
    -- environment's overrides.
    pub load-IsUsable :
        {c : Config F}
        → load hundredths unmarshal p env read_file path ≡ ok c
        → IsUsable c × ((base : Config F) × IsBase base × (c ≡ apply_env_overrides p env base))
    unfolding load
    load-IsUsable h = elim (Bool-cases (str_eq path "")) [
      | inl unset ↦
          after_file-IsUsable (ok (defaults hundredths))
            (λ b e. unnamed (str_eq_sound path "" unset) (cc)) (rw unset at h)
      | inr given ↦
          after_file-IsUsable (after_read hundredths unmarshal p env (read_file path))
            (λ b e. read-IsBase (read_file path) refl e) (rw given at h)
    ]
