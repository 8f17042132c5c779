-- ===== src/Contacts/Tests.antt =====
-- The theorems on the contacts at concrete inputs.
use axe_voice_desktop.Prelude.{
  true, false, ◌≡◌, ◌==◌, ◌||◌, ltb, List, [], ◌∷◌, map, none, refl, arith, Text, codes, between,
  is_digit,
}
use axe_voice_desktop.Sip.Status.{SipStatus}
use axe_voice_desktop.Sip.Observation.{SipRuntimeObservation, SipEvidence, RuntimeProcess}
use axe_voice_desktop.Call.Address
use axe_voice_desktop.Call.Address.{WideClasses}
use axe_voice_desktop.Contacts.Draft
use axe_voice_desktop.Contacts.Draft.{ContactDraft}
use axe_voice_desktop.Contacts.Book
use axe_voice_desktop.Contacts.Book.{
  Contact, ContactBook, ContactResult, Change, initial_book, step,
}
use axe_voice_desktop.Contacts.Book.Inv
use axe_voice_desktop.Contacts.Book.Inv.{step_contacts-IsValid}
use axe_voice_desktop.Contacts.Book.Refine.{Outcome, step_refines}
use axe_voice_desktop.Contacts.Recent
use axe_voice_desktop.Contacts.Recent.{
  RecentDestinations, Event, initial_recents, remember, synchronize, run, find, clear,
}
use axe_voice_desktop.Contacts.Recent.Mru
use axe_voice_desktop.Contacts.Recent.Mru.{mru, remember_is_mru}
use axe_voice_desktop.Contacts.Recent.Inv.{step_recents-IsValid}
use axe_voice_desktop.Contacts.Recent.Tokens.{cleared_token_finds_none}

-- The classes of the ASCII characters.
abbrev ascii : WideClasses
ascii = record {
  iswspace = λ c. c == 32 || between 9 13 c;
  iswcntrl = λ c. ltb c 32 || c == 127;
  iswdigit = is_digit;
}

abbrev draft : Text → Text → ContactDraft
draft name destination = record { name = name; destination = destination; favorite = false }

initial-IsValid : Inv.IsValid ascii initial_book
initial-IsValid = record { small = ground arith; apart = tt; kept = tt; word = ground arith }

abbrev adds_ana : Change
adds_ana = Change.adds (draft (codes "Ana") (codes "1001"))

abbrev with_ana : ContactBook
with_ana = (step ascii initial_book adds_ana).0

abbrev adds_bruno : Change
adds_bruno = Change.adds (draft (codes "Bruno") (codes "sip:b@c.br"))

adds_both : map (λ c. c.id) (step ascii with_ana adds_bruno).0.items ≡ 1 ∷ 2 ∷ []
unfolding Book.add Book.takes_destination Draft.valid_draft Draft.valid_name Draft.name_from
    Address.validate_address Address.validate_value Address.validate_host Address.valid_sip_host
adds_both = refl

step_contacts-IsValid_example : Inv.IsValid ascii with_ana
step_contacts-IsValid_example = step_contacts-IsValid ascii initial_book adds_ana initial-IsValid

with_ana-IsValid : Inv.IsValid ascii with_ana
with_ana-IsValid = step_contacts-IsValid ascii initial_book adds_ana initial-IsValid

step_refines_example : Outcome adds_bruno with_ana (step ascii with_ana adds_bruno) 2
step_refines_example = step_refines ascii with_ana adds_bruno 2 with_ana-IsValid

abbrev registered : SipRuntimeObservation
registered = record {
  process = RuntimeProcess.running;
  sip = SipStatus.registered;
  evidence = SipEvidence.verified_native_api;
  session = 3;
  call_id = 0;
  last_call_id = 5;
}

blank-IsValid : Mru.IsValid initial_recents
blank-IsValid = record {
  small = ground arith;
  apart = tt;
  issued = tt;
  word = (ground arith, ground arith);
}

abbrev one : RecentDestinations
one = (remember ascii initial_recents registered (codes "1001") true).0

one-IsValid : Mru.IsValid one
one-IsValid =
    step_recents-IsValid ascii initial_recents (Event.remembers registered (codes "1001") true)
      blank-IsValid

remembers : (remember ascii one registered (codes "1002") true).1 ≡ true
unfolding remember Recent.synchronize Recent.valid_context Recent.may_remember Recent.supported
    Address.validate_address Address.validate_value
remembers = refl

remember_is_mru_example :
    (remember ascii one registered (codes "1002") true).0.entries
    ≡ mru
        (record { token = one.next_token; destination = codes "1002" })
        (synchronize one registered).entries
remember_is_mru_example =
    remember_is_mru ascii one registered (codes "1002") true one-IsValid remembers

next_is_two : one.next_token ≡ 2
unfolding remember Recent.synchronize Recent.valid_context Recent.may_remember Recent.supported
    Address.validate_address Address.validate_value
next_is_two = refl

abbrev remembers_again : List Event
remembers_again = Event.remembers registered (codes "1001") true ∷ []

cleared_token_finds_none_example : find (run ascii (clear one) remembers_again) 1 registered ≡ none
cleared_token_finds_none_example =
    cleared_token_finds_none ascii one remembers_again 1 registered one-IsValid
      (omega (arith, next_is_two))
