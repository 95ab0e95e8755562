-- ===== src/Chat/Sse.antt =====
-- chat/sse-parser.ts: the frames in a stream of text. The decoder of UTF-8 is outside: a chunk is the
-- text that it gives.
pub mod Chunks
mod Tests
use Prim.Native.Char.{Char, code}
use aivirteach_server.Common.{
  ℕ, zero, suc, ◌+◌, ◌≤◌, ◌≡◌, refl, sym, ap, ◌∙◌, Bool, true, false, ◌&&◌, not, String, Option,
  none, some, List, [], ◌∷◌, ◌++◌, map, if◌then◌else◌, ◌==◌, arith, str_eq, split_lines, trim,
  after_prefix, Bool-cases, Option-cases, inl, inr,
}

pub record SseFrame : Type 0 where
  pub event : String
  pub data_text : String

abbrev pub starts_lf : String → Bool
starts_lf String.[] = false
starts_lf (String.◌∷◌ c s) = code c == 10

abbrev pub after_first : String → String
after_first String.[] = String.[]
after_first (String.◌∷◌ c s) = s

-- `.replace(/\r\n/g, '\n')`
unfoldable pub replace_crlf : String → String
replace_crlf String.[] = String.[]
replace_crlf (String.◌∷◌ c s) =
    let rest = replace_crlf s in if code c == 13 && starts_lf s then rest else String.◌∷◌ c rest

abbrev pub put_before : Char → Option (String × String) → Option (String × String)
put_before c none = none
put_before c (some (raw, rest)) = some (String.◌∷◌ c raw, rest)

-- `indexOf('\n\n')` and the two slices
unfoldable pub cut : String → Option (String × String)
cut String.[] = none
cut (String.◌∷◌ c s) =
    let later = put_before c (cut s) in
    if code c == 10 && starts_lf s then some (String.[], after_first s) else later

abbrev pub add_raw : String → List String × String → List String × String
add_raw raw (raws, rest) = (raw ∷ raws, rest)

-- the inner loop, on fuel
unfoldable pub drain : ℕ → String → List String × String
drain zero buffer = ([], buffer)
drain (suc n) buffer = elim (cut buffer) [
  | none ↦ ([], buffer)
  | some (raw, rest) ↦ add_raw raw (drain n rest)
]

-- `buffer + chunk`
abbrev pub append : String → String → String
append String.[] t = t
append (String.◌∷◌ c s) t = String.◌∷◌ c (append s t)

abbrev pub size : String → ℕ
size String.[] = 0
size (String.◌∷◌ c s) = suc (size s)

-- The frames of a text, with all the fuel that it needs.
abbrev pub drain_all : String → List String × String
drain_all s = drain (size s) s

-- One chunk: the frames that it completes, and the buffer that it leaves.
unfoldable pub feed : String → String → List String × String
feed buffer chunk = drain_all (replace_crlf (append buffer chunk))

unfoldable pub raw_frames : String → List String → List String
raw_frames buffer [] = []
raw_frames buffer (chunk ∷ chunks) = let fed = feed buffer chunk in fed.0 ++ raw_frames fed.1 chunks

-- One line of a frame: the event and the lines of data so far, the last first.
abbrev pub parse_line : String → String × List String → String × List String
parse_line line (event, data_lines) = elim (after_prefix ":" line) [
  | some rest ↦ (event, data_lines)
  | none ↦ elim (after_prefix "event:" line) [
    | some rest ↦ (trim rest, data_lines)
    | none ↦ elim (after_prefix "data:" line) [
      | some rest ↦ (event, trim rest ∷ data_lines)
      | none ↦ (event, data_lines)
    ]
  ]
]

abbrev pub parse_lines : List String → String × List String → String × List String
parse_lines [] state = state
parse_lines (line ∷ lines) state = parse_lines lines (parse_line line state)

-- `dataLines.join('\n')`, the last line first
abbrev pub join_lines : List String → String → String
join_lines [] text = text
join_lines (line ∷ lines) text = join_lines lines (append line (append "\n" text))

abbrev pub frame_of : String × List String → Option SseFrame
frame_of (event, []) = none
frame_of (event, last ∷ lines) = some (record { event = event; data_text = join_lines lines last })

unfoldable pub parse_frame : String → Option SseFrame
parse_frame raw = frame_of (parse_lines (split_lines raw) ("message", []))

abbrev pub yielded : List String → List SseFrame
yielded [] = []
yielded (raw ∷ raws) =
    let rest = yielded raws in elim (parse_frame raw) [ none ↦ rest | some frame ↦ frame ∷ rest ]

-- `parseSseStream`, on the chunks up to the end of the stream
unfoldable pub parse_sse_stream : List String → List SseFrame
parse_sse_stream chunks = yielded (raw_frames "" chunks)
