-- ===== src/Collections/Repeating.antt =====
-- Reminders are created once (`schedule_reminders` of app/services/collections.py and the index
-- `uq_collection_event_dedupe`).
use inpockets.Base.{
  ℕ, ◌≤◌, ltb, ◌==◌, ◌≡◌, refl, sym, subst, Bool, true, false, ◌&&◌, List, [], ◌∷◌, ◌++◌, Option,
  none, some, Bool-cases, arith, inl, inr, ==_refl,
}
use inpockets.Collections.{due_reminder_milestone}
use inpockets.Collections.Cases.{
  Channel, DedupeKey, reminder_key, CollectionEvent, CollectionCase, CaseDesk, same_channel,
  has_dedupe_key, key_taken, add_event,
}
use inpockets.Collections.Working.{
  reminder_channels, reminder_event, remind, remind_at, remind_case, schedule_reminders,
}

-- The reminder of a case is in its history.
abbrev is_reminded : CollectionCase → ℕ → Channel → List CollectionEvent → Bool
is_reminded c milestone channel events =
    key_taken c.id (reminder_key c.oldest_installment_id milestone channel) events

same_channel_refl : (c : Channel) → same_channel c c ≡ true
same_channel_refl c = ground arith

key_taken-append :
    (id : ℕ) (key : DedupeKey) (events more : List CollectionEvent)
    → key_taken id key events ≡ true
    → key_taken id key (events ++ more) ≡ true
unfolding key_taken
key_taken-append id key [] more h = cc
key_taken-append id key (e ∷ events) more h = ground (arith, h, key_taken-append id key events more)

key_taken-behind :
    (id : ℕ) (key : DedupeKey) (events more : List CollectionEvent)
    → key_taken id key more ≡ true
    → key_taken id key (events ++ more) ≡ true
unfolding key_taken
key_taken-behind id key [] more h = h
key_taken-behind id key (e ∷ events) more h =
    elim (Bool-cases (e.case_id == id && has_dedupe_key e.dedupe_key key)) [
      | inl t ↦ rw t refl
      | inr f ↦ rw f (key_taken-behind id key events more h)
    ]

key_taken_own :
    (c : CollectionCase) (milestone : ℕ) (channel : Channel) (events : List CollectionEvent)
    → is_reminded c milestone channel (events ++ reminder_event c milestone channel ∷ []) ≡ true
unfolding key_taken
key_taken_own c milestone channel events =
    key_taken-behind c.id (reminder_key c.oldest_installment_id milestone channel) events
      (reminder_event c milestone channel ∷ [])
      (rw
        (
          ==_refl c.id,
          ==_refl c.oldest_installment_id,
          ==_refl milestone,
          same_channel_refl channel,
        )
        refl)

-- An event that is added leaves the keys that are taken, and its own is taken then.
add_event-key_taken :
    (c : CollectionCase) (milestone : ℕ) (channel : Channel) (events : List CollectionEvent)
    → is_reminded c milestone channel (add_event (reminder_event c milestone channel) events).1
      ≡ true
unfolding add_event
add_event-key_taken c milestone channel events =
    elim (Bool-cases (is_reminded c milestone channel events)) [
      | inl e ↦ rw e e
      | inr e ↦ rw e (key_taken_own c milestone channel events)
    ]

add_event_keeps :
    (id : ℕ) (key : DedupeKey) (e : CollectionEvent) (events : List CollectionEvent)
    → key_taken id key events ≡ true
    → key_taken id key (add_event e events).1 ≡ true
unfolding add_event
add_event_keeps id key e events h = ground (arith, h, key_taken-append id key events (e ∷ []))

remind_keeps :
    (id : ℕ) (key : DedupeKey) (c : CollectionCase) (milestone : ℕ) (channels : List Channel)
    (events : List CollectionEvent)
    → key_taken id key events ≡ true
    → key_taken id key (remind c milestone channels events).1 ≡ true
unfolding remind
remind_keeps id key c milestone [] events h = h
remind_keeps id key c milestone (channel ∷ rest) events h =
    remind_keeps id key c milestone rest (add_event (reminder_event c milestone channel) events).1
      (add_event_keeps id key (reminder_event c milestone channel) events h)

-- A reminder of the milestone on each channel is in the history.
abbrev pub AllReminded : CollectionCase → ℕ → List Channel → List CollectionEvent → Type 0
AllReminded c milestone [] events = Unit
AllReminded c milestone (channel ∷ rest) events =
    (is_reminded c milestone channel events ≡ true) × AllReminded c milestone rest events

remind-AllReminded :
    (c : CollectionCase) (milestone : ℕ) (channels : List Channel) (events : List CollectionEvent)
    → AllReminded c milestone channels (remind c milestone channels events).1
unfolding remind
remind-AllReminded c milestone [] events = tt
remind-AllReminded c milestone (channel ∷ rest) events =
    let events' = (add_event (reminder_event c milestone channel) events).1 in
    (
      remind_keeps c.id (reminder_key c.oldest_installment_id milestone channel) c milestone rest
          events' (add_event-key_taken c milestone channel events),
      remind-AllReminded c milestone rest events',
    )

-- Where all reminders are in the history, none is made.
remind_again :
    (c : CollectionCase) (milestone : ℕ) (channels : List Channel) (events : List CollectionEvent)
    → AllReminded c milestone channels events
    → remind c milestone channels events ≡ (0, events)
unfolding remind add_event
remind_again c milestone [] events h = refl
remind_again c milestone (channel ∷ rest) events h =
    rw (h.0) (ground (arith, remind_again c milestone rest events h.1))

remind_at_again :
    (milestone : Option ℕ) (c : CollectionCase) (d : CaseDesk)
    → remind_at milestone c (remind_at milestone c d).1 ≡ (0, (remind_at milestone c d).1)
unfolding remind_at
remind_at_again none c d = refl
remind_at_again (some m) c d =
    let done = remind-AllReminded c m (reminder_channels m) d.events in
    rw (remind_again c m (reminder_channels m) (remind c m (reminder_channels m) d.events).1 done)
      refl

remind_at_same :
    (milestone : Option ℕ) (c : CollectionCase) (d : CaseDesk)
    → (remind_at milestone c d).1.live ≡ d.live
unfolding remind_at
remind_at_same none c d = refl
remind_at_same (some m) c d = refl

remind_case_again :
    (live : Option CollectionCase) (d : CaseDesk)
    → remind_case live (remind_case live d).1 ≡ (0, (remind_case live d).1)
unfolding remind_case
remind_case_again none d = refl
remind_case_again (some c) d = elim (Bool-cases (ltb c.dpd 1)) [
  | inl e ↦ rw e refl
  | inr e ↦ rw e (remind_at_again (due_reminder_milestone c.dpd) c d)
]

remind_case_same :
    (live : Option CollectionCase) (d : CaseDesk) → (remind_case live d).1.live ≡ d.live
unfolding remind_case
remind_case_same none d = refl
remind_case_same (some c) d = elim (Bool-cases (ltb c.dpd 1)) [
  | inl e ↦ rw e refl
  | inr e ↦ rw e (remind_at_same (due_reminder_milestone c.dpd) c d)
]

again :
    (enabled : Bool) (d : CaseDesk)
    → let d' = (schedule_reminders true d).1 in schedule_reminders enabled d' ≡ (0, d')
unfolding schedule_reminders
again false d = refl
again true d =
    subst (λ live. remind_case live (remind_case d.live d).1 ≡ (0, (remind_case d.live d).1))
      (sym (remind_case_same d.live d)) (remind_case_again d.live d)

-- A run of the reminders on a live case that has reached a milestone leaves, in its history, a reminder
-- for each channel of the milestone; and a further run, with the setting on or off, creates none and
-- changes nothing.
pub schedule_reminders_once :
    (enabled : Bool) (d : CaseDesk) (c : CollectionCase) (milestone : ℕ)
    → d.live ≡ some c
    → 1 ≤ c.dpd
    → due_reminder_milestone c.dpd ≡ some milestone
    → let d' = (schedule_reminders true d).1 in
      AllReminded c milestone (reminder_channels milestone) d'.events
      × (schedule_reminders enabled d' ≡ (0, d'))
unfolding schedule_reminders remind_case remind_at
schedule_reminders_once enabled d c milestone at days reached =
    let late : ltb c.dpd 1 ≡ false = ground (arith, days) in
    (
      rw (at, late, reached)
          (remind-AllReminded c milestone (reminder_channels milestone) d.events),
      again enabled d,
    )
