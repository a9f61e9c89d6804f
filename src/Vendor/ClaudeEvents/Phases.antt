-- ===== src/Vendor/ClaudeEvents/Phases.antt =====
-- The phases of a stream of events for a client of Claude, and what each event that
-- server/internal/relay/channel/openai/claude_response.go writes does to them.
use token_flux.Base.{
  ℕ, suc, ◌==◌, Bool, true, false, not, ◌&&◌, ◌||◌, String, Option, none, some, List, [], ◌∷◌,
  str_eq, eq_iff, Bool-cases, inl, inr, ◌≡◌, ◌∙◌, arith, if◌then◌else◌,
}
use token_flux.Vendor.Claude.{ClaudeContentBlock}
use token_flux.Vendor.ClaudeEvents.{
  ClaudeDelta, text_delta, thinking_delta, input_json_delta, ClaudeEvent, message_start,
  content_block_start, content_block_delta, content_block_stop, message_delta, message_stop,
  ClaudeStream, stop_other, start_new, write_delta,
}

pub data Phase : Type 0 where
  unstarted : Phase
  between : ℕ → Phase
  inside : ℕ → String → Phase
  closing stopped : Phase

abbrev pub fits : ClaudeDelta → String → Bool
fits (text_delta t) kind = str_eq kind "text"
fits (thinking_delta t) kind = str_eq kind "thinking"
fits (input_json_delta t) kind = true

abbrev pub is_arguments : ClaudeDelta → Bool
is_arguments (text_delta t) = false
is_arguments (thinking_delta t) = false
is_arguments (input_json_delta t) = true

abbrev pub if_so : Bool → Phase → Option Phase
if_so c p = if c then some p else none

unfoldable pub reads : ClaudeEvent → Phase → Option Phase
reads (message_start id model n) unstarted = some (between 0)
reads (content_block_start i b) (between j) = if_so (i == j) (inside i b.kind)
reads (content_block_delta i d) (inside j kind) = if_so (i == j && fits d kind) (inside j kind)
reads (content_block_delta i d) (between j) = if_so (i == j && is_arguments d) (between j)
reads (content_block_stop i) (inside j kind) = if_so (i == j) (between (suc j))
reads (message_delta r n) (between j) = some closing
reads message_stop closing = some stopped
-- A stream that was cut off has no `message_delta`.
reads message_stop (between j) = some stopped
reads _ _ = none

abbrev pub and_reads : ClaudeEvent → Option Phase → Option Phase
and_reads e none = none
and_reads e (some p) = reads e p

-- The phase after the events, of which the newest is the first.
unfoldable pub phase_after : List ClaudeEvent → Option Phase
unfolding reads
phase_after [] = some unstarted
phase_after (e ∷ es) = and_reads e (phase_after es)

-- The phase that the variables of the loop stand for.
abbrev pub phase_of : ClaudeStream → Phase
phase_of s =
    if not s.start_sent
    then unstarted
    else if str_eq s.current_block_type ""
    then between s.content_index
    else inside s.content_index s.current_block_type

abbrev pub IsOrderly : ClaudeStream → Type 0
IsOrderly s = phase_after s.sent ≡ some (phase_of s)

-- The message has started, and its events are in order.
abbrev pub IsRunning : ClaudeStream → Type 0
IsRunning s = (s.start_sent ≡ true) × IsOrderly s

-- A block of the type is open, or none is.
abbrev pub phase_for : String → ClaudeStream → Phase
phase_for kind s =
    if str_eq s.current_block_type kind
    then inside s.content_index kind
    else between s.content_index

pub stop_other-phase :
    (kind : String) (s : ClaudeStream)
    → str_eq kind "" ≡ false
    → s.start_sent ≡ true
    → IsOrderly s
    → phase_after (stop_other kind s).sent ≡ some (phase_for kind (stop_other kind s))
unfolding phase_after reads
stop_other-phase kind s named start h = elim (Bool-cases (str_eq s.current_block_type "")) [
  | inl e ↦ rw e (
      ground (
        arith,
        h,
        e,
        named,
        start,
        eq_iff s.current_block_type "",
        eq_iff s.current_block_type kind,
        eq_iff kind "",
      ))
  | inr e ↦ elim (Bool-cases (str_eq s.current_block_type kind)) [
    | inl d ↦ rw (e, d) (ground (arith, h, e, d, start, eq_iff s.current_block_type kind))
    | inr d ↦ rw (e, d) (ground (arith, h, e, d, start))
  ]
]

pub stop_other-start_sent :
    (kind : String) (s : ClaudeStream) → (stop_other kind s).start_sent ≡ s.start_sent
stop_other-start_sent kind s = ground arith

-- The block that is open then is of the type asked for.
pub start_new-IsOrderly :
    (b : ClaudeContentBlock) (s : ClaudeStream)
    → str_eq b.kind "" ≡ false
    → s.start_sent ≡ true
    → phase_after s.sent ≡ some (phase_for b.kind s)
    → IsOrderly (start_new b s)
      × ((start_new b s).current_block_type ≡ b.kind)
      × ((start_new b s).start_sent ≡ true)
unfolding phase_after reads
start_new-IsOrderly b s named start h = elim (Bool-cases (str_eq s.current_block_type b.kind)) [
  | inl e ↦ rw e (ground (arith, h, e, named, start, eq_iff s.current_block_type b.kind))
  | inr e ↦ rw e (ground (arith, h, e, named, start))
]

pub write_delta-IsOrderly :
    (d : ClaudeDelta) (s : ClaudeStream)
    → s.start_sent ≡ true
    → (is_arguments d || fits d s.current_block_type && not (str_eq s.current_block_type "")) ≡ true
    → IsOrderly s
    → IsOrderly (write_delta d s)
unfolding phase_after reads
write_delta-IsOrderly d s start fit h = elim (Bool-cases (str_eq s.current_block_type "")) [
  | inl e ↦ ground (arith, h, e, start, fit)
  | inr e ↦ ground (arith, h, e, start, fit)
]

-- A part of a block that is not the open one stops that one and starts its own.
pub write_part-IsRunning :
    (d : ClaudeDelta) (b : ClaudeContentBlock) (s : ClaudeStream)
    → fits d b.kind ≡ true
    → str_eq b.kind "" ≡ false
    → IsRunning s
    → IsRunning (write_delta d (start_new b (stop_other b.kind s)))
write_part-IsRunning d b s fit named (start, h) =
    let t : ClaudeStream = stop_other b.kind s in
    let started : t.start_sent ≡ true = stop_other-start_sent b.kind s ∙ start in
    let new = start_new-IsOrderly b t named started (stop_other-phase b.kind s named start h) in
    let kind : (start_new b t).current_block_type ≡ b.kind = new.1 in
    (
      new.2,
      write_delta-IsOrderly d (start_new b t) new.2 (rw kind (ground (arith, fit, named))) new.0,
    )
