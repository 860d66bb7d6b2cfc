-- ===== src/Websockets/Payload.antt =====
-- app/websockets/manager.py: what the `send_` methods broadcast.
use migrate_app_backend.Base.{ℕ, String, Option, [], ◌∷◌}
use migrate_app_backend.Base.Int.{ℤ, pos}
use migrate_app_backend.Utils.Json.{Object, text, number, texts, optional_text}
use migrate_app_backend.Migration.Executor.{Results}

-- `send_progress`
unfoldable pub progress_payload : String → String → ℤ → Option String → ℕ → ℕ → ℤ → ℤ → Object
progress_payload migration_id status progress current_table processed_rows total_rows speed
      time_remaining =
    ("type", text "progress")
    ∷ ("migration_id", text migration_id)
    ∷ ("status", text status)
    ∷ ("progress", number progress)
    ∷ ("current_table", optional_text current_table)
    ∷ ("processed_rows", number (pos processed_rows))
    ∷ ("total_rows", number (pos total_rows))
    ∷ ("speed", number speed)
    ∷ ("estimated_time_remaining", number time_remaining)
    ∷ []

-- `send_log`
unfoldable pub log_payload : String → String → String → Option String → Object
log_payload migration_id level message table_name =
    ("type", text "log")
    ∷ ("migration_id", text migration_id)
    ∷ ("level", text level)
    ∷ ("message", text message)
    ∷ ("table_name", optional_text table_name)
    ∷ []

-- `send_completed`: `**result` adds the keys of the report
unfoldable pub completed_payload : String → Results → Object
completed_payload migration_id result =
    ("type", text "completed")
    ∷ ("migration_id", text migration_id)
    ∷ ("completed_tables", texts result.completed_tables)
    ∷ ("skipped_tables", texts result.skipped_tables)
    ∷ ("failed_tables", texts result.failed_tables)
    ∷ ("total_rows_migrated", number (pos result.total_rows_migrated))
    ∷ []

-- `send_failed`
unfoldable pub failed_payload : String → String → Object
failed_payload migration_id error =
    ("type", text "failed") ∷ ("migration_id", text migration_id) ∷ ("error", text error) ∷ []
