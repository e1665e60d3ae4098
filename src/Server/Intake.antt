-- ===== src/Server/Intake.antt =====
-- internal/server/handlers.go `Ingest`: the logs that clients post. `decode` and `decode_list` are
-- json.Unmarshal into one entry and into the raw items of a list; `none` is its error. The channel to
-- the pipeline is the list of what it holds, and `cap` its capacity.
pub mod Room
use Prim.Native.String.{◌++◌ as text_append}
use sentinel_api.Base.{
  ℕ, suc, ◌+◌, String, Bool, true, false, not, ◌&&◌, ◌||◌, Option, none, some, List, [], ◌∷◌, ◌++◌,
  str_eq, is_blank, ltb, ◌==◌, length, any, Str, is_char, trim_space, split_at, if◌then◌else◌,
}
use sentinel_api.Event.{source_text}
use sentinel_api.Ingest.Value.{RawLog}
use sentinel_api.Ingest.Tail.{starts}

pub data Reply : Type 0 where
  unauthorized bad_request : Reply
  accepted : ℕ → Reply

-- What the channel holds, and how many entries were accepted.
pub record Intake : Type 0 where
  pub queue : List RawLog
  pub taken : ℕ

unfoldable pub is_authorized : String → String → Bool
is_authorized token header = is_blank token || str_eq header (text_append "Bearer " token)

unfoldable pub without_blank : List Str → List Str
unfolding trim_space
without_blank [] = []
without_blank (line ∷ lines) =
    let rest = without_blank lines in if length (trim_space line) == 0 then rest else line ∷ rest

-- The lines of a text that are not blank.
unfoldable pub lines_of : Str → List Str
unfolding without_blank split_at
lines_of s = let (first, others) = split_at (is_char b'\n') s in without_blank (first ∷ others)

module _ (cap : ℕ) (decode : Str → Option RawLog) where
  -- A full channel drops the entry.
  unfoldable pub offer_raw : Option RawLog → Intake → Intake
  offer_raw none q = q
  offer_raw (some raw) q =
      if is_blank (source_text raw.source)
      then q
      else (if ltb (length q.queue) cap
          then record { queue = q.queue ++ raw ∷ []; taken = q.taken + 1 }
          else q)

  unfoldable pub parse_items : List Str → Intake → Intake
  unfolding offer_raw
  parse_items [] q = q
  parse_items (item ∷ items) q = parse_items items (offer_raw (decode item) q)

  abbrev pub reply : Intake → Reply × List RawLog
  reply q = (accepted q.taken, q.queue)

  module _ (decode_list : Str → Option (List Str)) where
    -- A list, a text of several lines, or one entry.
    unfoldable pub intake : String → String → Str → List RawLog → Reply × List RawLog
    unfolding is_authorized parse_items lines_of trim_space
    intake token header body queue =
        let trimmed = trim_space body in
        let start : Intake = record { queue = queue; taken = 0 } in
        if not (is_authorized token header)
        then (unauthorized, queue)
        else if starts b'[' trimmed
        then elim (decode_list trimmed) [
          | none ↦ (bad_request, queue)
          | some items ↦ reply (parse_items items start)
        ]
        else if any (is_char b'\n') trimmed
        then reply (parse_items (lines_of trimmed) start)
        else reply (parse_items (trimmed ∷ []) start)
