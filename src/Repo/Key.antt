-- ===== src/Repo/Key.antt =====
-- backend/src/repo/cache.rs: the key of an answer in the cache, and the two crates that write it.
pub mod Collide
use denis.Base.{
  ℕ, ◌+◌, ◌≤◌, ◌<◌, Bool, true, false, leb, Option, none, some, List, [], ◌∷◌, ◌++◌, length, ◌≡◌,
  ◌≢◌, if◌then◌else◌,
}
use denis.Handler.Parser.{Query, RecordType}
use denis.Text.{Str, has_char}

-- `heapless::String<N>::push_str`: appends a text that fits, and leaves the buffer alone where it
-- does not (`none` is its error).
pub record Heapless : Type 0 where
  pub push_str : ℕ → Str → Str → Option Str
  pub push_str_fits :
      (capacity : ℕ) (buf s : Str)
      → length buf + length s ≤ capacity
      → push_str capacity buf s ≡ some (buf ++ s)
  pub push_str_full :
      (capacity : ℕ) (buf s : Str)
      → capacity < length buf + length s
      → push_str capacity buf s ≡ none

-- How `hickory_proto` shows a record type. No text has a colon.
pub record TypeNames : Type 0 where
  pub show : RecordType → Str
  pub show_colon_free : (t : RecordType) → has_char b':' (show t) ≡ false

abbrev pub key_capacity : ℕ
key_capacity = 128

-- "dns:"
abbrev pub prefix : Str
prefix = b'd' ∷ b'n' ∷ b's' ∷ b':' ∷ []

module _ (h : Heapless) where
  -- `write!`: piece after piece, until one is refused.
  unfoldable pub write_pieces : Str → List Str → Str
  write_pieces buf [] = buf
  write_pieces buf (s ∷ ss) = elim (h.push_str key_capacity buf s) [
    | some buf' ↦ write_pieces buf' ss
    | none ↦ buf
  ]

  -- `query_key`, on an empty buffer; its error is dropped.
  unfoldable pub query_key : TypeNames → Query → Str
  query_key names query =
      write_pieces [] (prefix ∷ query.name ∷ (b':' ∷ []) ∷ names.show query.query_type ∷ [])
