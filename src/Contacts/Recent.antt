-- ===== src/Contacts/Recent.antt =====
-- src/recent_destinations.h: the destinations that were dialled last. The entries in use are a list, its
-- length being `size_`; the entries behind it are blank. A failed allocation is not modelled.
pub mod Mru
pub mod Inv
pub mod Tokens
use axe_voice_desktop.Prelude.{
  Bool, true, false, ℕ, zero, suc, ◌+◌, ◌-◌, ◌*◌, ◌/◌, ◌%◌, ◌^◌, ◌≤◌, ◌<◌, ◌≡◌, ◌≢◌, ◌↔◌, ◌⊎◌, ◌∙◌,
  ◌==◌, ◌!=◌, ◌||◌, ◌&&◌, not, if◌then◌else◌, leb, ltb, List, [], ◌∷◌, ◌++◌, map, Option, none,
  some, inl, inr, refl, sym, ap, arith, tests, Bool-cases, Option-cases, length, get_or, set, take,
  drop, replicate, pop_front, All, All-append, All-mono, length-append, length-set, length-take,
  get_or-set_self, get_or-set_ne, u64_mod, u64_max, inc_u64, sub_u64, Text, codes, text_eq,
  is_empty, any, all, between, is_digit, is_letter, is_alnum, text_eq→≡, text_eq_refl, Before,
  newer_session, newer_sequence, NewerFrom, NewerFrom-mono, NotAfter, newer, same_or_later,
  NotAfter-trans, lt→ltb, ltb→lt, leb→le, le→leb, ==_iff,
}
use axe_voice_desktop.Sip.Status.{SipStatus, status_eq}
use axe_voice_desktop.Sip.Observation.{SipRuntimeObservation, is_running, is_verified}
use axe_voice_desktop.Call.Address.{WideClasses, validate_address, is_accepted}
use axe_voice_desktop.Contacts.Draft.{is_user_char, without_scheme}

pub record RecentDestination : Type 0 where
  pub token : ℕ  -- uint64_t
  pub destination : Text

abbrev pub capacity : ℕ
capacity = 10

pub record RecentDestinations : Type 0 where
  pub entries : List RecentDestination
  pub session : ℕ  -- uint64_t
  pub next_token : ℕ  -- uint64_t

abbrev pub initial_recents : RecentDestinations
initial_recents = record { entries = []; session = 0; next_token = 1 }

unfoldable pub valid_context : SipRuntimeObservation → Bool
valid_context o =
    is_running o.process
    && is_verified o.evidence
    && o.session != 0
    && (status_eq o.sip SipStatus.registered
        || status_eq o.sip SipStatus.calling
        || status_eq o.sip SipStatus.ringing
        || status_eq o.sip SipStatus.in_call)

-- The tokens go on.
abbrev pub clear : RecentDestinations → RecentDestinations
clear r = record r { entries = []; session = 0 }

unfoldable pub synchronize : RecentDestinations → SipRuntimeObservation → RecentDestinations
synchronize r o =
    if not (valid_context o)
    then clear r
    else if r.session != o.session
    then record (clear r) { session = o.session }
    else r

-- The text in front of the first such character, or all of it.
abbrev text_before : ℕ → Text → Text
text_before x [] = []
text_before x (c ∷ cs) = let rest = text_before x cs in if c == x then [] else c ∷ rest

-- The checks of the destination's characters.
unfoldable pub supported : WideClasses → Text → Bool
supported w destination =
    all (λ c. ltb 32 c && ltb c 127) destination
    && is_accepted (validate_address w destination).error
    && all is_user_char (text_before b'@' (without_scheme destination))

-- The entries without the first one of the destination, if there is one.
unfoldable pub taken_out : Text → List RecentDestination → Option (List RecentDestination)
taken_out destination [] = none
taken_out destination (e ∷ es) =
    let rest = taken_out destination es in
    if text_eq e.destination destination
    then some es
    else elim rest [ none ↦ none | some kept ↦ some (e ∷ kept) ]

-- The entry of the destination is moved to the front, or the last one makes room.
unfoldable pub to_front : RecentDestination → List RecentDestination → List RecentDestination
to_front next entries = elim (taken_out next.destination entries) [
  | none ↦ next ∷ take (capacity - 1) entries
  | some others ↦ next ∷ others
]

unfoldable pub may_remember :
    WideClasses → RecentDestinations → SipRuntimeObservation → Text → Bool → Bool
may_remember w r o destination accepted =
    accepted
    && valid_context o
    && status_eq o.sip SipStatus.registered
    && o.call_id == 0
    && not (is_empty destination)
    && leb (length destination) 128
    && r.next_token != u64_max
    && supported w destination

unfoldable pub remember :
    WideClasses
    → RecentDestinations
    → SipRuntimeObservation
    → Text
    → Bool
    → RecentDestinations × Bool
remember w r₀ o destination accepted =
    let r = synchronize r₀ o in
    if not (may_remember w r o destination accepted) then (r, false) else (
      record r {
        entries = to_front (record { token = r.next_token; destination = destination }) r.entries;
        next_token = inc_u64 r.next_token;
      },
      true,
    )

-- The entry at an index, if it is in use.
abbrev pub at : List RecentDestination → ℕ → Option RecentDestination
at [] i = none
at (e ∷ es) zero = some e
at (e ∷ es) (suc i) = at es i

unfoldable pub find_token : List RecentDestination → ℕ → Option RecentDestination
find_token [] token = none
find_token (e ∷ es) token = if e.token == token then some e else find_token es token

unfoldable pub find : RecentDestinations → ℕ → SipRuntimeObservation → Option RecentDestination
find r token o =
    if token == 0 || not (valid_context o) || o.session != r.session
    then none
    else find_token r.entries token

-- The calls that change the destinations.
pub data Event : Type 0 where
  synchronizes : SipRuntimeObservation → Event
  remembers : SipRuntimeObservation → Text → Bool → Event
  clears : Event

abbrev pub step : WideClasses → RecentDestinations → Event → RecentDestinations
step w r (Event.synchronizes o) = synchronize r o
step w r (Event.remembers o destination accepted) = (remember w r o destination accepted).0
step w r Event.clears = clear r

abbrev pub run : WideClasses → RecentDestinations → List Event → RecentDestinations
run w r [] = r
run w r (e ∷ es) = run w (step w r e) es
