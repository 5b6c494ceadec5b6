-- ===== src/Tests/Messages.antt =====
-- Statuses on small inputs.
use merabriar.Prelude.{◌≡◌, ◌≢◌, ◌↔◌}
use merabriar.Rust.Text.{text}
use merabriar.Message.{pending, read, to_lowercase, from_str, to_string}
use merabriar.Message.Status.{from_str_iff}

read-is_not_pending : read ≢ pending
read-is_not_pending e = cc e

from_str_iff_example :
    (from_str (text "ReaD") ≡ read) ↔ (to_lowercase (text "ReaD") ≡ to_string read)
from_str_iff_example = from_str_iff read (text "ReaD") read-is_not_pending
