-- ===== src/Cti/Requests/Page.antt =====
-- What a page of events holds.
use axe_voice_desktop.Cti.Log.{Consecutive, oldest_number, newer_complete}
use axe_voice_desktop.Prelude.{false, ℕ, ◌+◌, ◌-◌, ◌≤◌, ◌<◌, ◌≡◌, arith, length}
use axe_voice_desktop.Cti.Requests.{CtiRequestQueue, sequence_of, events_after}
use axe_voice_desktop.Cti.Requests.Inv.{IsValid}

-- A page whose gap is not flagged, read while the ring is not empty, is complete: it has the events
-- numbered one by one from the cursor to the latest one.
pub events_after_complete :
    (q : CtiRequestQueue) (cursor : ℕ)
    → IsValid q
    → 0 < length q.events
    → cursor ≤ q.event_sequence
    → (events_after q cursor).gap ≡ false
    → let page = events_after q cursor in
      Consecutive sequence_of cursor page.events
      × (cursor + length page.events ≡ page.latest_sequence)
unfolding events_after
events_after_complete q cursor v some' high h =
    let n = q.event_sequence - length q.events in
    ground (
      arith,
      v.bounded,
      oldest_number sequence_of n q.events,
      newer_complete sequence_of n cursor q.events,
    )
