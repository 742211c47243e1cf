-- ===== src/Sse/Reader.antt =====
-- internal/sse/read_closer.go: the parser of the event stream.
-- `stream` is what the body will still deliver, `failure` the error that it ends with, and
-- `close_result` what closing it returns. `read_line` is `bufio.Reader.ReadLine`, which hands a line
-- longer than its buffer over in pieces. The loop of `Next` runs on fuel, and every read takes at
-- least one byte, so more fuel than bytes is enough.
pub mod Lines
pub mod Returns
pub mod Scan
pub mod Buffered
pub mod Ids
use i_drac_telemetry_referen.Common.{
  ℕ, zero, suc, ◌*◌, Bool, true, false, Option, none, some, List, [], ◌∷◌, ◌++◌, ◌&&◌, ◌==◌,
  if◌then◌else◌, Bytes, length,
}
use i_drac_telemetry_referen.Common.Int.{ℤ, pos, mul_int64}
use i_drac_telemetry_referen.Common.Text.{codes}
use i_drac_telemetry_referen.Sse.Decimal.{atoi}
use i_drac_telemetry_referen.Sse.Errors.{Error, already_closed, Result, ok, err}
use i_drac_telemetry_referen.Sse.Event.{Event, empty_event}
use Lines.{ReadLine, at_error, piece, read_line}

pub record ReadCloser : Type 0 where
  pub last_id : Bytes
  pub stream : Bytes
  pub failure : Error
  pub close_result : Option Error
  pub closed : Bool

-- The body of an answer: what it will deliver, how it ends, and what closing it returns.
pub record Body : Type 0 where
  pub stream : Bytes
  pub failure : Error
  pub close_result : Option Error

-- `NewReadCloser`
abbrev pub new_read_closer : Body → ReadCloser
new_read_closer b = record {
  last_id = [];
  stream = b.stream;
  failure = b.failure;
  close_result = b.close_result;
  closed = false;
}

-- `ReadCloser.Close`
unfoldable pub close : ReadCloser → ReadCloser × Option Error
close rc =
    if rc.closed then (rc, some already_closed) else (record rc { closed = true }, rc.close_result)

-- The local variables of `Next` that a line changes.
pub record Pending : Type 0 where
  pub event : Event
  pub id_present : Bool

abbrev pub start : ReadCloser → Pending
start rc = record { event = record empty_event { id = rc.last_id }; id_present = false }

unfoldable pub bytes_eq : Bytes → Bytes → Bool
bytes_eq [] [] = true
bytes_eq (x ∷ xs) (y ∷ ys) = x == y && bytes_eq xs ys
bytes_eq _ _ = false

-- `bytes.SplitN(line, []byte(":"), 2)`; a line with no colon has an empty value.
unfoldable pub split_field : Bytes → Bytes × Bytes
split_field [] = ([], [])
split_field (c ∷ cs) =
    let rest = split_field cs in if c == b':' then ([], cs) else (c ∷ rest.0, rest.1)

-- Only a single leading space is dropped.
unfoldable pub trim_space : Bytes → Bytes
trim_space [] = []
trim_space (c ∷ cs) = if c == b' ' then cs else c ∷ cs

abbrev pub set_retry : Pending → Option ℤ → Pending
set_retry p none = p
set_retry p (some ms) = record p { event = record p.event { retry = mul_int64 ms 1000000 } }

-- The switch over the field's name.
unfoldable pub set_field : Pending → Bytes → Bytes → Pending
unfolding bytes_eq atoi mul_int64
set_field p field value =
    if bytes_eq field (codes "id")
    then record p { event = record p.event { id = value }; id_present = true }
    else if bytes_eq field (codes "event")
    then record p { event = record p.event { name = value } }
    else if bytes_eq field (codes "data")
    then record p { event = record p.event { payload = p.event.payload ++ (value ++ b'\n' ∷ []) } }
    else if bytes_eq field (codes "retry")
    then set_retry p (atoi value)
    else p

-- s[0 : len(s)-1]
unfoldable pub drop_last : Bytes → Bytes
drop_last [] = []
drop_last (c ∷ []) = []
drop_last (c ∷ d ∷ cs) = c ∷ drop_last (d ∷ cs)

pub data Step : Type 0 where
  proceed : Pending → Step
  dispatch : Pending → Step

-- A blank line: an event with no data is passed over.
abbrev pub at_blank : Pending → Bytes → Step
at_blank p [] = proceed p
at_blank p (c ∷ cs) =
    dispatch (record p { event = record p.event { payload = drop_last (c ∷ cs) } })

-- A line of a field and a value.
unfoldable pub field_line : Pending → Bytes → Pending
unfolding split_field trim_space set_field
field_line p line = let (field, value) = split_field line in set_field p field (trim_space value)

-- What the loop's body does with a whole line: a blank one, a comment, or a field.
unfoldable pub handle_line : Pending → Bytes → Step
unfolding field_line drop_last
handle_line p [] = at_blank p p.event.payload
handle_line p (c ∷ cs) = if c == b':' then proceed p else proceed (field_line p (c ∷ cs))

-- The reader after an event has been dispatched with `rest` unread.
abbrev pub deliver : ReadCloser → Pending → Bytes → ReadCloser × Result Event
deliver rc p rest = (
  record rc { last_id = (if p.id_present then p.event.id else rc.last_id); stream = rest },
  ok p.event,
)

abbrev pub give_up : ReadCloser → ReadCloser × Result Event
give_up rc = (record rc { stream = [] }, err rc.failure)

-- The loop of `Next`, with the pieces of a line read so far and what is unread; `none` if the fuel
-- runs out.
unfoldable pub next_loop :
    ℕ → ℕ → ReadCloser → Pending → Bytes → Bytes → Option (ReadCloser × Result Event)
unfolding handle_line read_line
next_loop size zero rc p prefix unread = none
next_loop size (suc fuel) rc p prefix unread = elim (read_line size unread) [
  | at_error ↦ some (give_up rc)
  | piece line true rest ↦ next_loop size fuel rc p (prefix ++ line) rest
  | piece line false rest ↦ elim (handle_line p (prefix ++ line)) [
    | proceed q ↦ next_loop size fuel rc q [] rest
    | dispatch q ↦ some (deliver rc q rest)
  ]
]

-- The buffer of `bufio.NewReader`.
abbrev pub buffer_size : ℕ
buffer_size = 4096

-- `ReadCloser.Next`
unfoldable pub next : ReadCloser → Option (ReadCloser × Result Event)
unfolding next_loop
next rc = next_loop buffer_size (suc (length rc.stream)) rc (start rc) [] rc.stream
