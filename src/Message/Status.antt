-- ===== src/Message/Status.antt =====
-- Statuses and their texts: message/mod.rs writes them with `to_string` and reads them with `from_str`.
use merabriar.Prelude.{ℕ, ◌≡◌, ◌≢◌, ◌↔◌, refl, [], ◌∷◌, arith}
use merabriar.Rust.Text.{Text}
use merabriar.Message.{
  MessageStatus, pending, sent, delivered, read, failed, to_lower, to_lowercase, from_str,
  to_string,
}

-- A status other than `pending` is read exactly from its own text, in whatever capitals.
pub from_str_iff :
    (s : MessageStatus) (t : Text) → s ≢ pending → (from_str t ≡ s) ↔ (to_lowercase t ≡ to_string s)
unfolding from_str to_string
from_str_iff pending t h = absurd (h refl)
from_str_iff sent t h = (ground arith, ground arith)
from_str_iff delivered t h = (ground arith, ground arith)
from_str_iff read t h = (ground arith, ground arith)
from_str_iff failed t h = (ground arith, ground arith)

-- Every status is read back from its text.
pub from_str-to_string : (s : MessageStatus) → from_str (to_string s) ≡ s
unfolding from_str to_string to_lowercase to_lower
from_str-to_string pending = ground arith
from_str-to_string sent = ground arith
from_str-to_string delivered = ground arith
from_str-to_string read = ground arith
from_str-to_string failed = ground arith

to_lower_idem : (c : ℕ) → to_lower (to_lower c) ≡ to_lower c
unfolding to_lower
to_lower_idem c = ground arith

to_lowercase_idem : (t : Text) → to_lowercase (to_lowercase t) ≡ to_lowercase t
unfolding to_lowercase
to_lowercase_idem [] = refl
to_lowercase_idem (c ∷ t) = cc (to_lower_idem c, to_lowercase_idem t)

-- Capitals make no difference to `from_str`.
from_str-to_lowercase : (t : Text) → from_str (to_lowercase t) ≡ from_str t
unfolding from_str
from_str-to_lowercase t = rw (to_lowercase_idem t)
