-- ===== src/Sse/Stream/Read.antt =====
-- A reader of event streams, after the format of the HTML standard, and what it reads of the stream that
-- go/adapter/sse/sse.go writes. The text of an event is that of its `data` fields.
use go_stream.Prelude.{
  ℕ, ◌≡◌, refl, sym, ◌∙◌, ap, Bool, true, false, ◌||◌, List, [], ◌∷◌, ◌++◌, Option, none, some,
  Text, All, codes, nat_beq, text_beq, if◌then◌else◌, arith, append_assoc, append_nil,
}
use go_stream.Wire.{Frame}
use go_stream.Peer.{Peer}
use go_stream.Sse.Stream.{
  data_prefix, newline, write_lines, write_event_frame, heartbeat_frame, StreamCase, Next,
  written_by, drained_by, returns, waits, writes_ping, writes, stream_case, stream_loop, drained,
}

abbrev pub carriage_return : ℕ
carriage_return = 13

data Kind : Type 0 where
  feed return plain : Kind

kind : ℕ → Kind
kind c = if nat_beq c newline then feed else if nat_beq c carriage_return then return else plain

-- A character of a kind, where `line` has been read of the line it is on; `returned` is true just after a
-- carriage return.
abbrev by_kind : Kind → Bool → Text → ℕ → (Bool → Text → List Text) → List Text
by_kind feed true line c further = further false []
by_kind feed false line c further = line ∷ further false []
by_kind return returned line c further = line ∷ further true []
by_kind plain returned line c further = further false (line ++ (c ∷ []))

-- The lines of a text, each ended by a line feed, a carriage return or both.
pub lines_of : Bool → Text → Text → List Text
lines_of returned line [] = []
lines_of returned line (c ∷ text) = by_kind (kind c) returned line c (λ r l. lines_of r l text)

-- A line is a field's name, a colon and its value, from which one space is taken off; without a colon it is
-- a name.
abbrev colon : ℕ
colon = 58

pub before_colon : Text → Text
before_colon [] = []
before_colon (c ∷ line) = if nat_beq c colon then [] else c ∷ before_colon line

pub after_colon : Text → Text
after_colon [] = []
after_colon (c ∷ line) = if nat_beq c colon then line else after_colon line

pub without_space : Text → Text
without_space [] = []
without_space (c ∷ value) = if nat_beq c 32 then value else c ∷ value

pub data_of : Text → Option Text
data_of line =
    if text_beq (before_colon line) (codes "data")
    then some (without_space (after_colon line))
    else none

unfoldable pub join : Text → List Text → Text
join first [] = first
join first (line ∷ lines) = first ++ (newline ∷ join line lines)

abbrev emit : List Text → List Frame → List Frame
emit [] events = events
emit (first ∷ lines) events = join first lines ∷ events

abbrev with_data : List Text → Option Text → List Text
with_data fields none = fields
with_data fields (some value) = fields ++ (value ∷ [])

-- The events: an empty line ends an event, which is dropped if it has no data. Fields of other names and
-- comments, whose name is empty, do not add to it.
pub events : List Text → List Text → List Frame
events fields [] = []
events fields ([] ∷ lines) = emit fields (events [] lines)
events fields ((c ∷ line) ∷ lines) = events (with_data fields (data_of (c ∷ line))) lines

pub read_events : Text → List Frame
read_events text = events [] (lines_of false [] text)

abbrev pub has : ℕ → Text → Bool
has d [] = false
has d (c ∷ text) = nat_beq c d || has d text

-- What `core.Split` at the newline gives: at least one part, none with a newline, which joined by
-- newlines are the frame.
pub record IsSplit (parts : List Text) (frame : Frame) : Type 0 where
  pub first : Text
  pub more : List Text
  pub parts_are : parts ≡ first ∷ more
  pub joined : join first more ≡ frame
  pub no_newline : All (λ line. has newline line ≡ false) (first ∷ more)

-- Nothing in it ends a line.
abbrev IsLine : Text → Type 0
IsLine line = (has newline line ≡ false) × (has carriage_return line ≡ false)

has-append : (d : ℕ) (xs ys : Text) → has d (xs ++ ys) ≡ (has d xs || has d ys)
has-append d [] ys = refl
has-append d (x ∷ xs) ys = ground (arith, has-append d xs ys)

parts-IsLine :
    (first : Text) (more : List Text)
    → All (λ line. has newline line ≡ false) (first ∷ more)
    → has carriage_return (join first more) ≡ false
    → All IsLine (first ∷ more)
unfolding join
parts-IsLine first [] (h, _) k = ((h, k), tt)
parts-IsLine first (line ∷ lines) (h, hs) k =
    let split = has-append carriage_return first (newline ∷ join line lines) in
    ((h, ground (arith, split, k)), parts-IsLine line lines hs (ground (arith, split, k)))

kind_of_plain :
    (c : ℕ) → nat_beq c newline ≡ false → nat_beq c carriage_return ≡ false → kind c ≡ plain
unfolding kind
kind_of_plain c h k = rw (h, k) refl

lines_of-line :
    (line text rest : Text)
    → IsLine text
    → lines_of false line (text ++ (newline ∷ rest)) ≡ (line ++ text) ∷ lines_of false [] rest
unfolding lines_of kind
lines_of-line line [] rest h = ap (λ l. l ∷ lines_of false [] rest) (sym (append_nil line))
lines_of-line line (c ∷ text) rest (h, k) =
    ap (λ k. by_kind k false line c (λ r l. lines_of r l (text ++ (newline ∷ rest))))
      (kind_of_plain c (ground (arith, h)) (ground (arith, k)))
    ∙ lines_of-line (line ++ (c ∷ [])) text rest (ground (arith, h), ground (arith, k))
    ∙ ap (λ l. l ∷ lines_of false [] rest) (append_assoc line (c ∷ []) text)

-- The lines that are written are read back as fields.
write_lines-events :
    (fields lines : List Text) (rest : Text)
    → All IsLine lines
    → events fields (lines_of false [] (write_lines lines ++ rest))
      ≡ emit (fields ++ lines) (events [] (lines_of false [] rest))
unfolding lines_of kind write_lines events data_of before_colon after_colon without_space text_beq
write_lines-events fields [] rest h =
    ap (λ fs. emit fs (events [] (lines_of false [] rest))) (sym (append_nil fields))
write_lines-events fields (line ∷ lines) rest (clean, h) =
    ap (λ t. events fields (lines_of false data_prefix t))
      (append_assoc line (newline ∷ write_lines lines) rest)
    ∙ ap (events fields) (lines_of-line data_prefix line (write_lines lines ++ rest) clean)
    ∙ write_lines-events (fields ++ (line ∷ [])) lines rest h
    ∙ ap (λ fs. emit fs (events [] (lines_of false [] rest)))
        (append_assoc fields (line ∷ []) lines)

event-events :
    (split : Frame → List Text) (frame : Frame) (rest : Text)
    → IsSplit (split frame) frame
    → has carriage_return frame ≡ false
    → read_events (write_event_frame split frame ++ rest) ≡ frame ∷ read_events rest
unfolding read_events write_event_frame
event-events split frame rest s h =
    ap (λ parts. events [] (lines_of false [] (write_lines parts ++ rest))) s.parts_are
    ∙ write_lines-events [] (s.first ∷ s.more) rest
        (parts-IsLine s.first s.more s.no_newline (ap (has carriage_return) s.joined ∙ h))
    ∙ ap (λ f. f ∷ events [] (lines_of false [] rest)) s.joined

heartbeat-events : (rest : Text) → read_events (heartbeat_frame ++ rest) ≡ read_events rest
unfolding read_events lines_of kind events data_of before_colon after_colon without_space text_beq
heartbeat-events rest = refl

-- A frame without a carriage return, on which `split` is as documented.
abbrev pub Splits : (Frame → List Text) → Frame → Type 0
Splits split frame = IsSplit (split frame) frame × (has carriage_return frame ≡ false)

next-events :
    (split : Frame → List Text) (next : Next) (text : Peer → Text) (frames : Peer → List Frame)
    → ((peer : Peer) → All (Splits split) (frames peer) → read_events (text peer) ≡ frames peer)
    → All (Splits split) (drained_by next frames)
    → read_events (written_by split next text) ≡ drained_by next frames
next-events split returns text frames further s = unfold read_events lines_of events in refl
next-events split (waits peer) text frames further s = further peer s
next-events split (writes_ping peer) text frames further s =
    heartbeat-events (text peer) ∙ further peer s
next-events split (writes peer frame) text frames further ((one, plain_one), s) =
    event-events split frame (text peer) one plain_one ∙ ap (◌∷◌ frame) (further peer s)

-- Where `core.Split` at the newline behaves as documented on the frames that the loop takes off the peer's
-- queue, and none of them has a carriage return, a reader of event streams, for which lines end in line
-- feeds, carriage returns or both, reads these frames in their order from the stream that the loop
-- writes, heartbeats included.
pub stream_loop-events :
    (split : Frame → List Text) (peer : Peer) (cases : List StreamCase)
    → All (Splits split) (drained peer cases)
    → read_events (stream_loop split peer cases) ≡ drained peer cases
unfolding stream_loop drained
stream_loop-events split peer [] s = unfold read_events lines_of events in refl
stream_loop-events split peer (case ∷ cases) s =
    next-events split (stream_case peer case) (λ next. stream_loop split next cases)
      (λ next. drained next cases) (λ next k. stream_loop-events split next cases k) s
