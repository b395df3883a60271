-- ===== src/Transport.antt =====
-- crates/nymstr-transport/src/lib.rs: reply destinations.
-- A Nym tag is a number; its base58 text and the parser of it belong to the Nym SDK (parameters).
pub mod RoundTrip
use Prim.Native.String.{◌++◌, slice, len}
use text.Mathlib.Text.{starts_with}
use nymstr.Prelude.{
  ℕ, String, Bool, false, Option, none, some, Key, ◌==◌, ==_iff, ◌≡◌, ◌↔◌, if◌then◌else◌, arith, ap,
  true, nat_eq, string_eq,
}

pub data ReplyTag : Type 0 where
  nym : ℕ → ReplyTag
  stdio : String → ReplyTag

abbrev tag_beq : ReplyTag → ReplyTag → Bool
tag_beq (nym a) (nym b) = a == b
tag_beq (stdio a) (stdio b) = a == b
tag_beq (nym a) (stdio b) = false
tag_beq (stdio a) (nym b) = false

pub tag_beq_iff : (s t : ReplyTag) → (tag_beq s t ≡ true) ↔ (s ≡ t)
tag_beq_iff (nym a) (nym b) = ground arith
tag_beq_iff (stdio a) (stdio b) = ground (arith, ==_iff a b)
tag_beq_iff (nym a) (stdio b) = ground arith
tag_beq_iff (stdio a) (nym b) = ground arith

instance abbrev pub tag_eq : Key ReplyTag
tag_eq = record { matches = tag_beq; matches_iff = tag_beq_iff }

-- `Display`.
unfoldable pub to_string : (ℕ → String) → ReplyTag → String
to_string base58 (nym tag) = base58 tag
to_string base58 (stdio id) = "stdio:" ++ id

-- `s.strip_prefix(prefix)`.
unfoldable pub strip_prefix : String → String → Option String
strip_prefix prefix s = if starts_with s prefix then some (slice s (len prefix) (len s)) else none

unfoldable pub from_stored_string : (String → Option ℕ) → String → Option ReplyTag
unfolding strip_prefix
from_stored_string try_from_base58 s = elim (strip_prefix "stdio:" s) [
  | some id ↦ some (stdio id)
  | none ↦ elim (try_from_base58 s) [ none ↦ none | some tag ↦ some (nym tag) ]
]
