-- ===== src/Config/Settings/Overrides.antt =====
-- `_ENVIRONMENT_OVERRIDES`, in its order.
use quest_test.Prelude.{List, [], ◌∷◌}
use quest_test.Config.Settings.{Override, override}

unfoldable pub environment_overrides : List Override
environment_overrides =
    override "AUTOMATION_API_BASE_URL" "api" "base_url"
    ∷ override "AUTOMATION_API_AUTH_TOKEN" "api" "auth_token"
    ∷ override "AUTOMATION_API_TIMEOUT_SECONDS" "api" "timeout_seconds"
    ∷ override "AUTOMATION_API_RETRY_ATTEMPTS" "api" "retry_attempts"
    ∷ override "AUTOMATION_API_RETRY_BACKOFF_SECONDS" "api" "retry_backoff_seconds"
    ∷ override "AUTOMATION_PRIVILEGED_EMAIL" "authentication" "privileged_email"
    ∷ override "AUTOMATION_PRIVILEGED_PASSWORD" "authentication" "privileged_password"
    ∷ override "AUTOMATION_RESTRICTED_EMAIL" "authentication" "restricted_email"
    ∷ override "AUTOMATION_RESTRICTED_PASSWORD" "authentication" "restricted_password"
    ∷ override "AUTOMATION_NON_OWNER_EMAIL" "authentication" "non_owner_email"
    ∷ override "AUTOMATION_NON_OWNER_PASSWORD" "authentication" "non_owner_password"
    ∷ override "AUTOMATION_DB_DRIVER" "database" "driver"
    ∷ override "AUTOMATION_DB_HOST" "database" "host"
    ∷ override "AUTOMATION_DB_PORT" "database" "port"
    ∷ override "AUTOMATION_DB_NAME" "database" "name"
    ∷ override "AUTOMATION_DB_USERNAME" "database" "username"
    ∷ override "AUTOMATION_DB_PASSWORD" "database" "password"
    ∷ override "AUTOMATION_DB_DSN" "database" "dsn"
    ∷ override "AUTOMATION_DB_CONNECT_TIMEOUT_SECONDS" "database" "connect_timeout_seconds"
    ∷ override "AUTOMATION_DB_READ_TIMEOUT_SECONDS" "database" "read_timeout_seconds"
    ∷ override "AUTOMATION_DB_WRITE_TIMEOUT_SECONDS" "database" "write_timeout_seconds"
    ∷ override "AUTOMATION_DB_READ_ONLY" "database" "read_only"
    ∷ override "AUTOMATION_DB_COMPRESS" "database" "compress"
    ∷ override "AUTOMATION_FACTOR_COMBO_AGENT_UID" "factor_combo" "agent_uid"
    ∷ override "AUTOMATION_FACTOR_COMBO_AGENT_BASE_URL" "factor_combo" "agent_base_url"
    ∷ override "AUTOMATION_FACTOR_COMBO_POLL_INTERVAL_SECONDS" "factor_combo"
        "poll_interval_seconds"
    ∷ override "AUTOMATION_FACTOR_COMBO_POLL_TIMEOUT_SECONDS" "factor_combo" "poll_timeout_seconds"
    ∷ override "AUTOMATION_FACTOR_COMBO_MAX_RESEARCH_ROUNDS" "factor_combo" "max_research_rounds"
    ∷ override "AUTOMATION_FACTOR_COMBO_WORKER_CONTRACTS" "factor_combo" "worker_contracts_enabled"
    ∷ override "AUTOMATION_FACTOR_COMBO_CLEANUP_TEST_DATA" "factor_combo" "cleanup_test_data"
    ∷ override "AUTOMATION_FACTOR_COMBO_REFRESH_POLL_INTERVAL_SECONDS" "factor_combo"
        "refresh_poll_interval_seconds"
    ∷ override "AUTOMATION_FACTOR_COMBO_REFRESH_POLL_TIMEOUT_SECONDS" "factor_combo"
        "refresh_poll_timeout_seconds"
    ∷ override "AUTOMATION_FACTOR_COMBO_MAX_REFRESH_POLLS" "factor_combo" "max_refresh_polls"
    ∷ override "AUTOMATION_FACTOR_COMBO_MAX_TECHNICAL_RETRIES" "factor_combo"
        "max_technical_retries"
    ∷ override "AUTOMATION_FACTOR_DATA_MCP_URL" "factor_data" "mcp_url"
    ∷ override "AUTOMATION_FACTOR_DATA_MCP_TOKEN" "factor_data" "auth_token"
    ∷ override "AUTOMATION_FACTOR_DATA_MCP_PROTOCOL_VERSION" "factor_data" "protocol_version"
    ∷ override "AUTOMATION_TEST_ALLOWED_HOSTS" "environment_safety" "allowed_hosts"
    ∷ override "AUTOMATION_TEST_ALLOWED_DATABASE_HOSTS" "environment_safety"
        "allowed_database_hosts"
    ∷ override "AUTOMATION_PRODUCTION_ALLOWED_HOSTS" "environment_safety" "allowed_hosts"
    ∷ override "AUTOMATION_PRODUCTION_ALLOWED_DATABASE_HOSTS" "environment_safety"
        "allowed_database_hosts"
    ∷ []
