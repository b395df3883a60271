-- ===== src/Transport/RoundTrip.antt =====
-- A reply tag survives being stored as text.
use Prim.Native.String.{◌++◌}
use text.Mathlib.Text.{starts_with}
use text.Mathlib.TextPositions.{starts_with-append, len-append, slice-append_right}
use nymstr.Prelude.{ℕ, String, Option, some, ◌≡◌, false, arith}
use nymstr.Transport.{ReplyTag, nym, stdio, to_string, strip_prefix, from_stored_string}

pub strip_prefix-append : (p s : String) → strip_prefix p (p ++ s) ≡ some s
unfolding strip_prefix
strip_prefix-append p s = rw (starts_with-append p s, len-append p s, slice-append_right p s)

module _ (base58 : ℕ → String) (try_from_base58 : String → Option ℕ) where
  -- The text that the server stores for a tag gives the tag back, for tags of both kinds. The
  -- base58 parser is assumed to read what the printer wrote, and base58 texts not to begin
  -- with "stdio:" (a colon is no base58 digit).
  pub from_stored_string-to_string :
      ((n : ℕ) → try_from_base58 (base58 n) ≡ some n)
      → ((n : ℕ) → starts_with (base58 n) "stdio:" ≡ false)
      → (t : ReplyTag) → from_stored_string try_from_base58 (to_string base58 t) ≡ some t
  unfolding from_stored_string to_string
  from_stored_string-to_string reads plain (nym n) = ground (arith, reads n, plain n)
  from_stored_string-to_string reads plain (stdio id) =
      ground (arith, strip_prefix-append "stdio:" id)
