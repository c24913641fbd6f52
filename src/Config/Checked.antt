-- ===== src/Config/Checked.antt =====
-- What src/config/env.js asks of the variables, one group after the other.
use gov_flow.Prelude.{
  ◌≤◌, String, true, false, ◌&&◌, ◌≡◌, ◌≢◌, refl, ◌⊎◌, inl, inr, subst, sym, ap, Option, none, some,
  arith, ltb, ◌==◌, eq_iff, Bool-cases, if◌then◌else◌,
}
use gov_flow.Js.Text.{trim, is_empty_text, length_utf16}
use gov_flow.Js.Value.{Number}
use gov_flow.Errors.{Error}
use gov_flow.Runtime.{Result, ok, err}
use gov_flow.Config.Values.{
  Variables, ◌>>=◌, present, require_env, strong, require_strong_secret, is_missing, or_text,
  is_node_env, resolve_node_env, resolve_redis_password, is_on, require_jira_variables,
  validate_jira_config,
}
use gov_flow.Config.Load.{database_settings}

-- A result that says whether N holds: a value of which P holds, or an error, and then not N.
abbrev pub Tells : {A : Type 0} → (A → Type 0) → Type 0 → Result A → Type 0
Tells P N (ok a) = P a
Tells P N (err e) = ¬ N

pub Tells-bind :
    {A B : Type 0} (P : A → Type 0) (N : Type 0) (Q : B → Type 0) (K : Type 0) (m : Result A)
    (f : A → Result B)
    → Tells P N m
    → (K → N)
    → ((a : A) → P a → Tells Q K (f a))
    → Tells Q K (m >>= f)
Tells-bind P N Q K (ok a) f h k g = g a h
Tells-bind P N Q K (err e) f h k g = λ x. h (k x)

pub Tells-map :
    {A : Type 0} (P : A → Type 0) (N : Type 0) (Q : A → Type 0) (K : Type 0) (m : Result A)
    → ((a : A) → P a → Q a)
    → (K → N)
    → Tells P N m
    → Tells Q K m
Tells-map P N Q K (ok a) f g h = f a h
Tells-map P N Q K (err e) f g h = λ k. h (g k)

is_node_env-cases :
    (s : String) → is_node_env s ≡ true → (s ≡ "development") ⊎ (s ≡ "test") ⊎ (s ≡ "production")
is_node_env-cases s h =
    ground (arith, eq_iff s "development", eq_iff s "test", eq_iff s "production")

cases-is_node_env :
    (s : String) → (s ≡ "development") ⊎ (s ≡ "test") ⊎ (s ≡ "production") → is_node_env s ≡ true
cases-is_node_env s (inl e) = rw e refl
cases-is_node_env s (inr (inl e)) = rw e refl
cases-is_node_env s (inr (inr e)) = rw e refl

long-is_empty_text : (t : String) → 32 ≤ length_utf16 t → is_empty_text t ≡ false
unfolding length_utf16
long-is_empty_text String.[] h = ground arith
long-is_empty_text (String.◌∷◌ c s) h = refl

some_same : {s t : String} {o : Option String} → o ≡ some s → o ≡ some t → s ≡ t
some_same {s} {t} {o} e f = ground arith

password-Tells :
    (m : String) (o : Option String) (e : Error)
    → Tells
        (λ p.
          (m ≢ "production")
          ⊎ ((s : String) × (p ≡ some s) × (o ≡ some s) × (is_empty_text (trim s) ≡ false)))
        ((m ≢ "production") ⊎ ((s : String) × (o ≡ some s) × (is_empty_text (trim s) ≡ false)))
        (if m == "production" && is_missing o then err e else ok (if is_missing o then none else o))
password-Tells m o e = elim (Bool-cases (m == "production")) [
  | inl a ↦ by_password o (ground (arith, eq_iff m "production")) a
  | inr a ↦ rw a (inl (λ h. ground (arith, eq_iff m "production")))
]
  where
    by_password :
        (o : Option String)
        → m ≡ "production"
        → (m == "production") ≡ true
        → Tells
            (λ p.
              (m ≢ "production")
              ⊎ ((s : String) × (p ≡ some s) × (o ≡ some s) × (is_empty_text (trim s) ≡ false)))
            ((m ≢ "production") ⊎ ((s : String) × (o ≡ some s) × (is_empty_text (trim s) ≡ false)))
            (if m == "production" && is_missing o
              then err e
              else ok (if is_missing o then none else o))
    by_password none p a = rw a (λ h. elim h [ inl n ↦ n p | inr (s, f, b) ↦ ground arith ])
    by_password (some s) p a = elim (Bool-cases (is_empty_text (trim s))) [
      | inl b ↦ rw (a, b) (λ h. elim h [ inl n ↦ n p | inr (t, f, c) ↦ ground arith ])
      | inr b ↦ rw (a, b) (inr (s, refl, refl, b))
    ]

is_on-true : (o : Option String) → is_on o ≡ true → o ≡ some "true"
is_on-true none h = ground arith
is_on-true (some s) h = ap some (ground (arith, eq_iff s "true"))

module _ (vars : Variables) where
  -- The variable has a text that is not blank.
  abbrev pub IsPresent : String → Type 0
  IsPresent name = (s : String) × (vars name ≡ some s) × (is_empty_text (trim s) ≡ false)

  -- NODE_ENV, `production` if it is not set
  abbrev pub mode : String
  mode = or_text (vars "NODE_ENV") "production"

  abbrev pub HasMode : Type 0
  HasMode = (mode ≡ "development") ⊎ (mode ≡ "test") ⊎ (mode ≡ "production")

  abbrev pub HasAccount : Type 0
  HasAccount = IsPresent "JIRA_BASE_URL" × IsPresent "JIRA_EMAIL" × IsPresent "JIRA_API_TOKEN"

  abbrev pub HasJira : Type 0
  HasJira = (vars "JIRA_ENABLED" ≢ some "true") ⊎ HasAccount

  abbrev pub HasDatabase : Type 0
  HasDatabase =
      IsPresent "DB_HOST"
      × IsPresent "DB_PORT"
      × IsPresent "DB_USER"
      × IsPresent "DB_PASSWORD"
      × IsPresent "DB_NAME"

  abbrev pub HasSecret : Type 0
  HasSecret = (s : String) × (vars "JWT_SECRET" ≡ some s) × (32 ≤ length_utf16 (trim s))

  abbrev pub HasRedis : Type 0
  HasRedis = (mode ≢ "production") ⊎ IsPresent "REDIS_PASSWORD"

  -- All that a process needs of its variables
  pub record IsComplete : Type 0 where
    pub has_mode : HasMode
    pub has_jira : HasJira
    pub has_database : HasDatabase
    pub has_secret : HasSecret
    pub has_redis : HasRedis

  present-Tells :
      (o : Option String) (e : Error)
      → Tells
          (λ s. (o ≡ some s) × (is_empty_text (trim s) ≡ false))
          ((s : String) × (o ≡ some s) × (is_empty_text (trim s) ≡ false))
          (present o e)
  present-Tells none e = λ (s, a, b). ground arith
  present-Tells (some s) e = elim (Bool-cases (is_empty_text (trim s))) [
    | inl a ↦ rw (a, present) (λ (t, b, c). ground arith)
    | inr a ↦ rw (a, present) (refl, a)
  ]

  require-Tells :
      (name : String)
      → Tells
          (λ s. (vars name ≡ some s) × (is_empty_text (trim s) ≡ false))
          (IsPresent name)
          (require_env vars name)
  unfolding require_env
  require-Tells name = present-Tells (vars name) _

  pub mode-Tells : Tells (λ m. (m ≡ mode) × HasMode) HasMode (resolve_node_env vars)
  unfolding resolve_node_env
  mode-Tells = elim (Bool-cases (is_node_env mode)) [
    | inl a ↦ rw a (refl, is_node_env-cases mode a)
    | inr a ↦ rw a (λ h. cc (a, cases-is_node_env mode h))
  ]

  strong-Tells :
      (name value : String)
      → Tells
          (λ s. (s ≡ value) × (32 ≤ length_utf16 (trim value)))
          (32 ≤ length_utf16 (trim value))
          (strong name value)
  unfolding strong
  strong-Tells name value = elim (Bool-cases (ltb (length_utf16 (trim value)) 32)) [
    | inl a ↦ rw a (λ h. ground arith)
    | inr a ↦ rw a (refl, ground arith)
  ]

  -- A required variable, and what follows it
  required :
      {B : Type 0} (name : String) (Q : B → Type 0) (K : Type 0) (f : String → Result B)
      → (K → IsPresent name)
      → ((s : String) → vars name ≡ some s → IsPresent name → Tells Q K (f s))
      → Tells Q K (require_env vars name >>= f)
  required name Q K f k g =
      Tells-bind _ _ Q K _ f (require-Tells name) k (λ s (e, filled). g s e (s, e, filled))

  pub secret-Tells :
      Tells
        (λ s. (vars "JWT_SECRET" ≡ some s) × (32 ≤ length_utf16 (trim s)))
        HasSecret
        (require_strong_secret vars "JWT_SECRET")
  unfolding require_strong_secret
  secret-Tells =
      required "JWT_SECRET" _ HasSecret _ (λ (s, e, long). (s, e, long-is_empty_text (trim s) long))
        (λ value e filled.
          Tells-map (λ s. (s ≡ value) × (32 ≤ length_utf16 (trim value)))
            (32 ≤ length_utf16 (trim value)) _ HasSecret _
            (λ s (same, long). (rw same e, rw same long))
            (λ (s, f, long).
              subst (λ (x : String). 32 ≤ length_utf16 (trim x)) (sym (some_same e f)) long)
            (strong-Tells "JWT_SECRET" value))

  pub redis-Tells :
      (m : String)
      → Tells
          (λ p.
            (m ≢ "production")
            ⊎ ((s : String) × (p ≡ some s)
                × (vars "REDIS_PASSWORD" ≡ some s)
                × (is_empty_text (trim s) ≡ false)))
          ((m ≢ "production") ⊎ IsPresent "REDIS_PASSWORD")
          (resolve_redis_password vars m)
  unfolding resolve_redis_password
  redis-Tells m = password-Tells m (vars "REDIS_PASSWORD") _

  jira_variables-Tells : Tells (λ u. HasAccount) HasAccount (require_jira_variables vars)
  unfolding require_jira_variables
  jira_variables-Tells =
      required "JIRA_BASE_URL" _ HasAccount _ (λ (a, b, c). a)
        (λ s e1 a.
          required "JIRA_EMAIL" _ HasAccount _ (λ (a, b, c). b)
            (λ t e2 b.
              required "JIRA_API_TOKEN" _ HasAccount _ (λ (a, b, c). c) (λ u e3 c. (a, b, c))))

  pub jira-Tells : Tells (λ u. HasJira) HasJira (validate_jira_config vars)
  unfolding validate_jira_config
  jira-Tells = elim (Bool-cases (is_on (vars "JIRA_ENABLED"))) [
    | inl a ↦ rw a (
        Tells-map (λ u. HasAccount) HasAccount (λ u. HasJira) HasJira _ (λ u h. inr h)
          (λ h. elim h [ inl n ↦ absurd (n (is_on-true _ a)) | inr k ↦ k ]) jira_variables-Tells)
    | inr a ↦ rw a (inl (λ e. cc (a, ap is_on e)))
  ]

  pub database-Tells :
      (parse : String → Number)
      → Tells (λ d. HasDatabase) HasDatabase (database_settings parse vars)
  unfolding database_settings
  database-Tells parse =
      required "DB_HOST" _ HasDatabase _ (λ (a, b, c, d, e). a)
        (λ s e1 a.
          required "DB_PORT" _ HasDatabase _ (λ (a, b, c, d, e). b)
            (λ t e2 b.
              required "DB_USER" _ HasDatabase _ (λ (a, b, c, d, e). c)
                (λ u e3 c.
                  required "DB_PASSWORD" _ HasDatabase _ (λ (a, b, c, d, e). d)
                    (λ v e4 d.
                      required "DB_NAME" _ HasDatabase _ (λ (a, b, c, d, e). e)
                        (λ x e5 e. (a, b, c, d, e))))))
