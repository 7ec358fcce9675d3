-- ===== src/Utility/Events/Tests.antt =====
-- utility/Event.cpp: subscriber 3 with event 5.
use oodles.Prelude.{ℕ, ◌≡◌, refl, false, not, ◌&&◌, ◌||◌, ◌==◌, [], none}
use oodles.Utility.Events.{
  Store, contains, put, remove, subscribe_to, unsubscribe_from, destroy_event, broadcast,
}
use oodles.Utility.Events.Laws.{
  Linked, subscribe_to-Linked, subscribe_to-unsubscribe_from, destroy_event-subscribed,
}

abbrev quiet : Store
quiet = record { subscribers = λ e. []; events = λ s. [] }

quiet-Linked : Linked quiet
unfolding contains
quiet-Linked = record { distinct = λ e. tt; known = λ s e h. cc h }

abbrev subscribed : Store
subscribed = (subscribe_to quiet 3 5).0

subscribed-Linked : Linked subscribed
subscribed-Linked = (subscribe_to-Linked quiet 3 5 quiet-Linked).3

subscribe_to-Linked_example :
    ((subscribe_to subscribed 4 5).1 ≡ not (contains 5 (subscribed.events 4)))
    × ((t f : ℕ)
        → contains t ((subscribe_to subscribed 4 5).0.subscribers f) ≡ (
            contains t (subscribed.subscribers f)
            || ((subscribe_to subscribed 4 5).1 && (4 == t && 5 == f))))
    × ((t f : ℕ)
        → contains f ((subscribe_to subscribed 4 5).0.events t) ≡ (
            contains f (subscribed.events t)
            || ((subscribe_to subscribed 4 5).1 && (4 == t && 5 == f))))
    × Linked (subscribe_to subscribed 4 5).0
subscribe_to-Linked_example = subscribe_to-Linked subscribed 4 5 subscribed-Linked

abbrev gone : Store
gone = record subscribed {
  subscribers = put subscribed.subscribers 5 (remove 3 (subscribed.subscribers 5));
}

subscribe_to-unsubscribe_from_example :
    (subscribe_to gone 3 5 ≡ (gone, false)) × (contains 3 (broadcast gone 5) ≡ false)
unfolding subscribe_to unsubscribe_from contains
subscribe_to-unsubscribe_from_example =
    subscribe_to-unsubscribe_from subscribed gone 3 5 subscribed-Linked refl

destroy_event-subscribed_example : destroy_event subscribed 5 ≡ none
unfolding subscribe_to contains
destroy_event-subscribed_example =
    destroy_event-subscribed subscribed 5 subscribed-Linked (λ e. cc e)
