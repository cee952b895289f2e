-- ===== src/Errors/Display.antt =====
-- The texts that the errors of src/error.rs display.
use load_ants.Prelude.{◌++◌}
use load_ants.Prelude.Texts.{Text, codes}
use load_ants.Errors.{ConfigError, AppError}

unfoldable pub display_config : ConfigError → Text
display_config (ConfigError.load_error e) = codes "Failed to load configuration file: " ++ e
display_config (ConfigError.parse_error e) = codes "YAML parsing error: " ++ e
display_config (ConfigError.invalid_listen_address e) = codes "Invalid server listen address: " ++ e
display_config (ConfigError.invalid_upstream_url e) = codes "Invalid upstream URL: " ++ e
display_config (ConfigError.invalid_group_name e) = codes "Invalid upstream group name: " ++ e
display_config (ConfigError.invalid_weight_config e) = codes "Invalid weight configuration: " ++ e
display_config (ConfigError.invalid_auth_config e) =
    codes "Invalid authentication configuration: " ++ e
display_config (ConfigError.invalid_upstream_config e) =
    codes "Invalid upstream server configuration: " ++ e
display_config (ConfigError.invalid_route_rule e) = codes "Invalid route rule: " ++ e
display_config (ConfigError.invalid_pattern e) = codes "Invalid pattern: " ++ e
display_config (ConfigError.invalid_regex e) = codes "Invalid regular expression: " ++ e
display_config (ConfigError.invalid_cache_config e) = codes "Invalid cache configuration: " ++ e
display_config (ConfigError.invalid_http_client_config e) =
    codes "Invalid HTTP client configuration: " ++ e
display_config (ConfigError.duplicate_group_name e) = codes "Duplicate upstream group name: " ++ e
display_config (ConfigError.non_existent_group_reference e) =
    codes "Route rule references non-existent upstream group: " ++ e
display_config (ConfigError.validation_error e) = codes "Configuration validation error: " ++ e

unfoldable pub display : AppError → Text
display (AppError.config e) = codes "Configuration error: " ++ display_config e
display (AppError.io e) = codes "IO error: " ++ e
display (AppError.dns_proto e) = codes "DNS resolution error: " ++ e
display (AppError.http e) = codes "HTTP request error: " ++ e
display (AppError.http_middleware e) = codes "HTTP middleware error: " ++ e
display (AppError.upstream e) = codes "Upstream error: " ++ e
display (AppError.router e) = codes "Router error: " ++ e
display (AppError.cache e) = codes "Cache error: " ++ e
display AppError.timeout = codes "Timeout error"
display AppError.no_upstream_available = codes "No available upstream servers"
display (AppError.upstream_group_not_found e) = codes "Upstream group not found: " ++ e
display (AppError.internal e) = codes "Internal error: " ++ e
display (AppError.json_error e) = codes "JSON serialization/deserialization error: " ++ e
display (AppError.no_route_match e) = codes "No matching route rule: " ++ e
display (AppError.invalid_proxy e) =
    codes "Invalid proxy configuration: Proxy configuration error: " ++ e
display (AppError.http_error e) = codes "HTTP client error: HTTP client error: " ++ e
display (AppError.missing_required_config e) = codes "Missing required configuration: " ++ e
display (AppError.invalid_load_balancing_strategy e) =
    codes "Invalid load balancing strategy: " ++ e
display AppError.invalid_shutdown_timeout =
    codes "Invalid shutdown timeout: must be between minimum and maximum values"
display (AppError.not_implemented e) = codes "Feature not implemented: " ++ e
