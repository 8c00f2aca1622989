-- ===== src/Config.antt =====
-- pkg/config/config.go and `processConfig` of internal/config/loader.go: the configuration, its
-- defaults and its checks. The parts of a YAML, JSON or TOML file are read by packages outside of
-- the repository.
pub mod Database
pub mod Services
pub mod Program
pub mod Defaults
pub mod Accepted
