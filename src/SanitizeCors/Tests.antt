-- ===== src/SanitizeCors/Tests.antt =====
-- proxy/sanitize_cors.go: the header values on concrete inputs.
use llmsnap.Prelude.{codes, ◌≡◌, true}
use llmsnap.SanitizeCors.{sanitize_access_control_request_header_values}
use llmsnap.Prelude.{every}
use llmsnap.SanitizeCors.Safe.{is_safe, sanitized_safe}

sanitized_safe_example :
    every is_safe (sanitize_access_control_request_header_values (codes "Content-Type, b@d,X-Y "))
    ≡ true
sanitized_safe_example = sanitized_safe (codes "Content-Type, b@d,X-Y ")
