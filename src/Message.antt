-- ===== src/Message.antt =====
-- rust_core/src/message/mod.rs: message records and the texts of the statuses.
pub mod Status
pub mod Checks
use merabriar.Prelude.{ℕ, ◌+◌, map, leb, ◌&&◌, if◌then◌else◌, ite}
use merabriar.Rust.Text.{Bytes, Text, text, Text_discrete}
use merabriar.Rust.Int.{ℤ}

pub data MessageStatus : Type 0 where
  pending sent delivered read failed : MessageStatus

-- `str::to_lowercase`, on the bytes of ASCII letters; other bytes stay. Unicode lowers further letters, but
-- the only one that becomes ASCII alone is the Kelvin sign, which becomes a k, and no status has a k: what
-- `from_str` returns is the same.
to_lower : ℕ → ℕ
to_lower c = if leb 65 c && leb c 90 then c + 32 else c

unfoldable pub to_lowercase : Text → Text
unfolding to_lower
to_lowercase = map to_lower

-- The match of `from_str` on the lowered text.
from_lower : Text → MessageStatus
from_lower t = ite (Text_discrete t (text "pending")) pending (
    ite (Text_discrete t (text "sent")) sent (
      ite (Text_discrete t (text "delivered")) delivered (
        ite (Text_discrete t (text "read")) read
          (ite (Text_discrete t (text "failed")) failed pending))))

-- `MessageStatus::from_str`
unfoldable pub from_str : Text → MessageStatus
unfolding from_lower
from_str s = from_lower (to_lowercase s)

-- `MessageStatus::to_string`
unfoldable pub to_string : MessageStatus → Text
to_string pending = text "pending"
to_string sent = text "sent"
to_string delivered = text "delivered"
to_string read = text "read"
to_string failed = text "failed"

pub record Message : Type 0 where
  pub id : Text
  pub conversation_id : Text
  pub sender_id : Text
  pub content : Text
  pub timestamp : ℤ
  pub status : MessageStatus

-- `Message::new`, at the time `now`
unfoldable pub new : ℤ → Text → Text → Text → Text → Message
new now id conversation_id sender_id content = record {
  id = id;
  conversation_id = conversation_id;
  sender_id = sender_id;
  content = content;
  timestamp = now;
  status = pending;
}

pub data MessageType : Type 0 where
  text_type image voice video file location contact : MessageType

pub record EncryptedMessage : Type 0 where
  pub id : Text
  pub sender_id : Text
  pub recipient_id : Text
  pub encrypted_content : Bytes
  pub message_type : MessageType
  pub timestamp : ℤ
