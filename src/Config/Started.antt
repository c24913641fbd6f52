-- ===== src/Config/Started.antt =====
-- When src/config/env.js lets a process start, and what then holds of the settings.
use gov_flow.Prelude.{
  arith, ℕ, ◌≤◌, String, true, false, ◌≡◌, ◌≢◌, refl, ◌⊎◌, inl, inr, subst, sym, ◌∙◌, Option, some,
  Bool-cases,
}
use gov_flow.Js.Text.{trim, is_empty_text, length_utf16}
use gov_flow.Js.Value.{
  Number, whole, above, pos, is_at_most_zero, infinity, minus_infinity, not_a_number, negsuc,
}
use gov_flow.Config.Values.{
  Variables, is_missing, is_finite, positive_or, parse_positive_number, is_natural, number_of,
  parse_trust_proxy_hops,
}
use gov_flow.Config.Load.{Settings, app_settings, jwt_settings, redis_settings, load_settings}
use gov_flow.Config.Checked.{
  Tells, Tells-bind, IsPresent, mode, HasMode, HasJira, HasDatabase, HasRedis, HasSecret,
  IsComplete, mode-Tells, jira-Tells, database-Tells, secret-Tells, redis-Tells,
}

-- Redis has a password, or the mode does not ask for one.
abbrev pub HasPassword : String → Option String → Type 0
HasPassword m p =
    (m ≢ "production") ⊎ ((s : String) × (p ≡ some s) × (is_empty_text (trim s) ≡ false))

-- What holds of the settings of a process that has started
pub record IsSound (s : Settings) : Type 0 where
  pub hops : (n : ℕ) × (s.app.trust_proxy_hops ≡ whole (pos n))
  pub timeout :
      (is_finite s.running_timeout_minutes ≡ true)
      × (is_at_most_zero s.running_timeout_minutes ≡ false)
  pub secret : 32 ≤ length_utf16 (trim s.jwt.secret)
  pub password : HasPassword s.app.node_env s.redis.password

positive_sound :
    (n : Number)
    → (is_finite (positive_or n (whole (pos 30))) ≡ true)
      × (is_at_most_zero (positive_or n (whole (pos 30))) ≡ false)
unfolding positive_or
positive_sound n = elim (Bool-cases (is_finite n)) [
  | inl a ↦ elim (Bool-cases (is_at_most_zero n)) [
    | inl b ↦ rw (a, b) (refl, refl)
    | inr b ↦ rw (a, b) (a, b)
  ]
  | inr a ↦ rw a (refl, refl)
]

natural-whole : (n : Number) → is_natural n ≡ true → (k : ℕ) × (n ≡ whole (pos k))
natural-whole (whole (pos k)) h = (k, refl)
natural-whole (whole (negsuc k)) h = ground arith
natural-whole (above k) h = ground arith
natural-whole infinity h = ground arith
natural-whole minus_infinity h = ground arith
natural-whole not_a_number h = ground arith

hops-natural :
    (parse : String → Number) (o : Option String)
    → (n : ℕ) × (parse_trust_proxy_hops parse o (whole (pos 0)) ≡ whole (pos n))
unfolding parse_trust_proxy_hops
hops-natural parse o = elim (Bool-cases (is_missing o)) [
  | inl a ↦ (0, rw a refl)
  | inr a ↦ elim (Bool-cases (is_natural (number_of parse o))) [
    | inl b ↦ let (n, e) = natural-whole _ b in (n, rw (a, b) e)
    | inr b ↦ (0, rw (a, b) refl)
  ]
]

jwt-Tells :
    (parse : String → Number) (vars : Variables)
    → Tells
        (λ j. HasSecret vars × (32 ≤ length_utf16 (trim j.secret)))
        (HasSecret vars)
        (jwt_settings parse vars)
unfolding jwt_settings
jwt-Tells parse vars =
    Tells-bind (λ s. (vars "JWT_SECRET" ≡ some s) × (32 ≤ length_utf16 (trim s))) (HasSecret vars) _
      (HasSecret vars) _ _ (secret-Tells vars) (λ h. h) (λ s (e, long). ((s, e, long), long))

redis_settings-Tells :
    (parse : String → Number) (vars : Variables) (m : String)
    → m ≡ mode vars
    → Tells
        (λ r. HasRedis vars × HasPassword m r.password)
        (HasRedis vars)
        (redis_settings parse vars m)
unfolding redis_settings
redis_settings-Tells parse vars m same =
    Tells-bind
      (λ p.
        (m ≢ "production")
        ⊎ ((s : String) × (p ≡ some s)
            × (vars "REDIS_PASSWORD" ≡ some s)
            × (is_empty_text (trim s) ≡ false)))
      ((m ≢ "production") ⊎ IsPresent vars "REDIS_PASSWORD") _ (HasRedis vars) _ _
      (redis-Tells vars m)
      (subst (λ (x : String). (x ≢ "production") ⊎ IsPresent vars "REDIS_PASSWORD") (sym same))
      (λ p h. elim h [
        | inl n ↦ (inl (λ e. n (same ∙ e)), inl n)
        | inr (s, e, f, filled) ↦ (inr (s, f, filled), inr (s, e, filled))
      ])

-- A process starts exactly if its variables are complete: NODE_ENV is one of the three modes or not
-- set, the five variables of the database are set, JWT_SECRET has at least 32 characters,
-- REDIS_PASSWORD is set in production, and the three variables of Jira are set if JIRA_ENABLED is
-- `true`. Once it has started, the number of trusted proxies is a natural number, the running
-- timeout is finite and positive, the secret has at least 32 characters, and in production Redis has
-- a password.
pub load_settings-Tells :
    (parse : String → Number) (vars : Variables)
    → Tells (λ s. IsComplete vars × IsSound s) (IsComplete vars) (load_settings parse vars)
unfolding load_settings jwt_settings redis_settings app_settings parse_positive_number
load_settings-Tells parse vars =
    Tells-bind (λ m. (m ≡ mode vars) × HasMode vars) (HasMode vars) _ (IsComplete vars) _ _
      (mode-Tells vars) (λ c. c.has_mode)
      (λ m (same, has_mode).
        Tells-bind (λ u. HasJira vars) (HasJira vars) _ (IsComplete vars) _ _ (jira-Tells vars)
          (λ c. c.has_jira)
          (λ u has_jira.
            Tells-bind (λ d. HasDatabase vars) (HasDatabase vars) _ (IsComplete vars) _ _
              (database-Tells vars parse) (λ c. c.has_database)
              (λ d has_database.
                Tells-bind (λ j. HasSecret vars × (32 ≤ length_utf16 (trim j.secret)))
                  (HasSecret vars) _ (IsComplete vars) _ _ (jwt-Tells parse vars)
                  (λ c. c.has_secret)
                  (λ j (has_secret, long).
                    Tells-bind (λ r. HasRedis vars × HasPassword m r.password) (HasRedis vars) _
                      (IsComplete vars) _ _ (redis_settings-Tells parse vars m same)
                      (λ c. c.has_redis)
                      (λ r (has_redis, password). (
                        record {
                          has_mode = has_mode;
                          has_jira = has_jira;
                          has_database = has_database;
                          has_secret = has_secret;
                          has_redis = has_redis;
                        },
                        record {
                          hops = hops-natural parse (vars "TRUST_PROXY_HOPS");
                          timeout =
                              positive_sound (
                                number_of parse
                                  (vars "WORKFLOW_EXECUTION_RUNNING_TIMEOUT_MINUTES"));
                          secret = long;
                          password = password;
                        },
                      ))))))
