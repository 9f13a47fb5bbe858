-- ===== src/Logging/Secrets.antt =====
-- About the secrets in what is logged.
