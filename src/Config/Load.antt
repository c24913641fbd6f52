-- ===== src/Config/Load.antt =====
-- The object that src/config/env.js exports, read in the order of its fields.
use gov_flow.Prelude.{ℕ, String, Bool, List, [], ◌∷◌, Option, some, ◌==◌, if◌then◌else◌}
use gov_flow.Js.Number.{or_number}
use gov_flow.Js.Value.{Number, whole, pos}
use gov_flow.Runtime.{Result, ok}
use gov_flow.Config.Values.{
  Variables, ◌>>=◌, ◌>>◌, require_env, require_strong_secret, parse_list, number_of,
  parse_positive_number, parse_trust_proxy_hops, or_text, resolve_node_env, resolve_redis_password,
  is_on, validate_jira_config,
}

pub record AppSettings : Type 0 where
  pub port : Number
  pub node_env : String
  pub cors_origins : List String
  pub trust_proxy_hops : Number

pub record RateLimit : Type 0 where
  pub window_ms : Number
  pub max_requests : Number

pub record RateLimits : Type 0 where
  pub login : RateLimit
  pub mutating : RateLimit
  pub processing : RateLimit
  pub jira : RateLimit
  pub admin_operations : RateLimit

pub record DatabaseSettings : Type 0 where
  pub host : String
  pub port : Number
  pub user : String
  pub password : String
  pub name : String

pub record JwtSettings : Type 0 where
  pub secret : String
  pub expires_in : String
  pub issuer : String
  pub audience : String

pub record RedisSettings : Type 0 where
  pub host : String
  pub port : Number
  pub password : Option String

pub record JiraVariables : Type 0 where
  pub enabled : Bool
  pub base_url : Option String
  pub email : Option String
  pub api_token : Option String
  pub timeout_ms : Number

pub record Settings : Type 0 where
  pub app : AppSettings
  pub rate_limit : RateLimits
  pub database : DatabaseSettings
  pub jwt : JwtSettings
  pub redis : RedisSettings
  pub running_timeout_minutes : Number
  pub jira : JiraVariables
  pub log_level : String

module _ (parse : String → Number) (vars : Variables) where
  -- `Number(process.env.X) || fallback`
  unfoldable pub number_or : String → ℕ → Number
  unfolding number_of
  number_or name fallback = or_number (number_of parse (vars name)) fallback

  unfoldable pub app_settings : String → AppSettings
  unfolding number_or parse_list parse_trust_proxy_hops
  app_settings node_env = record {
    port = number_or "PORT" 3000;
    node_env = node_env;
    cors_origins = parse_list (vars "CORS_ORIGINS") ("http://localhost:3000" ∷ []);
    trust_proxy_hops = parse_trust_proxy_hops parse (vars "TRUST_PROXY_HOPS") (whole (pos 0));
  }

  abbrev rate_limit_of : (window_name max_name : String) → ℕ → RateLimit
  rate_limit_of window_name max_name fallback = record {
    window_ms = number_or window_name 900000;
    max_requests = number_or max_name fallback;
  }

  unfoldable pub rate_limits : RateLimits
  unfolding number_or
  rate_limits = record {
    login = rate_limit_of "LOGIN_RATE_LIMIT_WINDOW_MS" "LOGIN_RATE_LIMIT_MAX" 10;
    mutating = rate_limit_of "MUTATING_RATE_LIMIT_WINDOW_MS" "MUTATING_RATE_LIMIT_MAX" 50;
    processing = rate_limit_of "PROCESSING_RATE_LIMIT_WINDOW_MS" "PROCESSING_RATE_LIMIT_MAX" 60;
    jira = rate_limit_of "JIRA_RATE_LIMIT_WINDOW_MS" "JIRA_RATE_LIMIT_MAX" 30;
    admin_operations = rate_limit_of "ADMIN_RATE_LIMIT_WINDOW_MS" "ADMIN_RATE_LIMIT_MAX" 20;
  }

  unfoldable pub database_settings : Result DatabaseSettings
  unfolding require_env number_of
  database_settings = do
    host ← require_env vars "DB_HOST"
    port ← require_env vars "DB_PORT"
    user ← require_env vars "DB_USER"
    password ← require_env vars "DB_PASSWORD"
    name ← require_env vars "DB_NAME"
    ok (record {
      host = host;
      port = number_of parse (some port);
      user = user;
      password = password;
      name = name;
    })

  unfoldable pub jwt_settings : Result JwtSettings
  unfolding require_strong_secret
  jwt_settings = do
    secret ← require_strong_secret vars "JWT_SECRET"
    ok (record {
      secret = secret;
      expires_in = or_text (vars "JWT_EXPIRES_IN") "1h";
      issuer = or_text (vars "JWT_ISSUER") "govflow";
      audience = or_text (vars "JWT_AUDIENCE") "govflow-api";
    })

  unfoldable pub redis_settings : String → Result RedisSettings
  unfolding resolve_redis_password number_or
  redis_settings node_env = do
    password ← resolve_redis_password vars node_env
    ok (record {
      host = or_text (vars "REDIS_HOST") "localhost";
      port = number_or "REDIS_PORT" 6379;
      password = password;
    })

  unfoldable pub jira_variables : JiraVariables
  unfolding number_or
  jira_variables = record {
    enabled = is_on (vars "JIRA_ENABLED");
    base_url = vars "JIRA_BASE_URL";
    email = vars "JIRA_EMAIL";
    api_token = vars "JIRA_API_TOKEN";
    timeout_ms = number_or "JIRA_TIMEOUT_MS" 10000;
  }

  abbrev pub default_level : String → String
  default_level node_env =
      if node_env == "production" then "info" else if node_env == "test" then "silent" else "debug"

  -- The module `env`, up to its export
  unfoldable pub load_settings : Result Settings
  unfolding resolve_node_env validate_jira_config database_settings jwt_settings redis_settings
      app_settings rate_limits jira_variables parse_positive_number
  load_settings = do
    node_env ← resolve_node_env vars
    validate_jira_config vars
    db ← database_settings
    jwt ← jwt_settings
    redis ← redis_settings node_env
    ok (record {
      app = app_settings node_env;
      rate_limit = rate_limits;
      database = db;
      jwt = jwt;
      redis = redis;
      running_timeout_minutes =
          parse_positive_number parse (vars "WORKFLOW_EXECUTION_RUNNING_TIMEOUT_MINUTES")
            (whole (pos 30));
      jira = jira_variables;
      log_level = or_text (vars "LOG_LEVEL") (default_level node_env);
    })
