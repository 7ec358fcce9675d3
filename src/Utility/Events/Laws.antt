-- ===== src/Utility/Events/Laws.antt =====
-- utility/Event.cpp and Subscriber.cpp: both containers agree, and what leaving does.
use oodles.Prelude.{
  ℕ, ◌≡◌, ◌≢◌, refl, ap, true, false, not, ◌&&◌, ◌||◌, List, [], ◌∷◌, none, some, ◌==◌, ==_refl,
  if◌then◌else◌, arith, Bool-cases, inl, inr,
}
use oodles.Utility.Events.{
  Store, contains, add, remove, put, subscribe_to, erase_locator, unsubscribe_from,
  drop_subscribers, destroy_event, broadcast,
}

-- No subscriber stands twice in a set.
abbrev pub Once : List ℕ → Type 0
Once [] = Unit
Once (x ∷ xs) = (contains x xs ≡ false) × Once xs

contains_same : (a b : ℕ) (xs : List ℕ) → (a == b) ≡ true → contains a xs ≡ contains b xs
contains_same a b xs e = ap (λ c. contains c xs) (ground arith)

contains-remove :
    (k j : ℕ) (xs : List ℕ)
    → Once xs
    → contains j (remove k xs) ≡ (if k == j then false else contains j xs)
unfolding contains remove
contains-remove k j [] o = ground arith
contains-remove k j (x ∷ xs) o = ground (
  arith,
  contains-remove k j xs o.1,
  o.0,
  contains_same k j xs,
  contains_same x j xs,
  contains_same x k xs,
)

contains-add :
    (k j : ℕ) (xs : List ℕ) → contains j (add k xs) ≡ (if k == j then true else contains j xs)
unfolding contains
contains-add k j xs = ground (arith, contains_same k j xs)

Once-add : (k : ℕ) (xs : List ℕ) → Once xs → Once (add k xs)
Once-add k xs o = elim (Bool-cases (contains k xs)) [ inl e ↦ rw e o | inr e ↦ rw e (e, o) ]

contains_less : (k j : ℕ) (xs : List ℕ) → contains j xs ≡ false → contains j (remove k xs) ≡ false
unfolding contains remove
contains_less k j [] h = refl
contains_less k j (x ∷ xs) h = ground (arith, contains_less k j xs)

Once-remove : (k : ℕ) (xs : List ℕ) → Once xs → Once (remove k xs)
unfolding remove
Once-remove k [] o = o
Once-remove k (x ∷ xs) o = elim (Bool-cases (x == k)) [
  | inl e ↦ rw (remove, e) o.1
  | inr e ↦ rw (remove, e) (contains_less k x xs o.0, Once-remove k xs o.1)
]

-- The store is well formed: a set has no element twice, and whoever is in an event's set has the
-- event among its own.
pub record Linked (w : Store) : Type 0 where
  pub distinct : (e : ℕ) → Once (w.subscribers e)
  pub known : (s e : ℕ) → contains s (w.subscribers e) ≡ true → contains e (w.events s) ≡ true

pub subscribe-new :
    (w : Store) (s e : ℕ)
    → contains e (w.events s) ≡ false
    → subscribe_to w s e ≡ (
      record w {
        events = put w.events s (e ∷ w.events s);
        subscribers = put w.subscribers e (add s (w.subscribers e));
      },
      true,
    )
unfolding subscribe_to
subscribe-new w s e h = rw h

subscribe-old :
    (w : Store) (s e : ℕ) → contains e (w.events s) ≡ true → subscribe_to w s e ≡ (w, false)
unfolding subscribe_to
subscribe-old w s e h = rw h

known_event : (e f : ℕ) (es : List ℕ) → contains f es ≡ true → contains f (e ∷ es) ≡ true
unfolding contains
known_event e f es h = ground arith

own_event : (e f : ℕ) (es : List ℕ) → (e == f) ≡ true → contains f (e ∷ es) ≡ true
unfolding contains
own_event e f es h = ground arith

-- Whoever is told of `f` afterwards, but for the new one, was before.
told_before :
    (w : Store) (s e t f : ℕ)
    → ((e == f) && (s == t)) ≡ false
    → contains t (put w.subscribers e (add s (w.subscribers e)) f) ≡ true
    → contains t (w.subscribers f) ≡ true
told_before w s e t f n h = elim (Bool-cases (e == f)) [
  | inl x ↦
      let same : w.subscribers e ≡ w.subscribers f = ap (λ i. w.subscribers i) (ground arith) in
      let other : (s == t) ≡ false = rw x at n in
      let a : contains t (add s (w.subscribers e)) ≡ true = rw x at h in
      let b : contains t (w.subscribers e) ≡ true =
        ground (arith, contains-add s t (w.subscribers e), a, other) in
      rw (← same) b
  | inr x ↦ rw x at h
]

known_after :
    (w : Store) (s e t f : ℕ)
    → Linked w
    → contains t (put w.subscribers e (add s (w.subscribers e)) f) ≡ true
    → contains f (put w.events s (e ∷ w.events s) t) ≡ true
known_after w s e t f l h = elim (Bool-cases (s == t)) [
  | inl y ↦ elim (Bool-cases (e == f)) [
    | inl x ↦ rw y (own_event e f (w.events s) x)
    | inr x ↦
        let n : ((e == f) && (s == t)) ≡ false = rw x in
        let same : w.events s ≡ w.events t = ap (λ i. w.events i) (ground arith) in
        rw (y, same) (known_event e f (w.events t) (l.known t f (told_before w s e t f n h)))
  ]
  | inr y ↦
      let n : ((e == f) && (s == t)) ≡ false = ground arith in
      rw y (l.known t f (told_before w s e t f n h))
]

Linked-subscribe_new :
    (w : Store) (s e : ℕ)
    → Linked w
    → Linked (record w {
      events = put w.events s (e ∷ w.events s);
      subscribers = put w.subscribers e (add s (w.subscribers e));
    })
Linked-subscribe_new w s e l = record {
  distinct = λ f. elim (Bool-cases (e == f)) [
    | inl x ↦ rw x (Once-add s (w.subscribers e) (l.distinct e))
    | inr x ↦ rw x (l.distinct f)
  ];
  known = λ t f h. known_after w s e t f l h;
}

told_after :
    (w : Store) (s e t f : ℕ)
    → contains t (put w.subscribers e (add s (w.subscribers e)) f)
      ≡ (contains t (w.subscribers f) || (s == t && e == f))
told_after w s e t f = elim (Bool-cases (e == f)) [
  | inl x ↦
      let same : w.subscribers e ≡ w.subscribers f = ap (λ i. w.subscribers i) (ground arith) in
      rw (x, same) (ground (arith, contains-add s t (w.subscribers f)))
  | inr x ↦ rw x (ground arith)
]

listed_after :
    (w : Store) (s e t f : ℕ)
    → contains f (put w.events s (e ∷ w.events s) t)
      ≡ (contains f (w.events t) || (s == t && e == f))
unfolding contains
listed_after w s e t f = elim (Bool-cases (s == t)) [
  | inl x ↦
      let same : w.events s ≡ w.events t = ap (λ i. w.events i) (ground arith) in
      rw (x, same) (ground arith)
  | inr x ↦ rw x (ground arith)
]

-- In a well-formed store subscribing says whether the subscriber had not yet got the event among its
-- own. If so, the subscriber is added to the event's and the event to the subscriber's, and otherwise
-- neither is; nobody else's change, and the store stays well formed.
pub subscribe_to-Linked :
    (w : Store) (s e : ℕ)
    → Linked w
    → ((subscribe_to w s e).1 ≡ not (contains e (w.events s)))
      × ((t f : ℕ)
          → contains t ((subscribe_to w s e).0.subscribers f)
            ≡ (contains t (w.subscribers f) || ((subscribe_to w s e).1 && (s == t && e == f))))
      × ((t f : ℕ)
          → contains f ((subscribe_to w s e).0.events t)
            ≡ (contains f (w.events t) || ((subscribe_to w s e).1 && (s == t && e == f))))
      × Linked (subscribe_to w s e).0
subscribe_to-Linked w s e l = elim (Bool-cases (contains e (w.events s))) [
  | inl h ↦ rw (subscribe-old w s e h, h) (refl, λ t f. ground arith, λ t f. ground arith, l)
  | inr h ↦
      rw (subscribe-new w s e h, h)
        (
          refl,
          λ t f. told_after w s e t f,
          λ t f. listed_after w s e t f,
          Linked-subscribe_new w s e l,
        )
]

unsubscribe-left :
    (w v : Store) (s e : ℕ)
    → unsubscribe_from w s e ≡ some (v, true)
    → (contains e (w.events s) ≡ true)
      × (v ≡ record w { subscribers = put w.subscribers e (remove s (w.subscribers e)) })
unfolding unsubscribe_from erase_locator
unsubscribe-left w v s e h = ground arith

not_told :
    (w : Store) (s e : ℕ)
    → Once (w.subscribers e)
    → contains s (put w.subscribers e (remove s (w.subscribers e)) e) ≡ false
not_told w s e o =
    let a : contains s (remove s (w.subscribers e)) ≡ false =
      ground (arith, contains-remove s s (w.subscribers e) o, ==_refl s) in
    rw (==_refl e) a

unsubscribe-done :
    (w : Store) (s e : ℕ)
    → contains e (w.events s) ≡ true
    → contains s (w.subscribers e) ≡ true
    → unsubscribe_from w s e
      ≡ some (record w { subscribers = put w.subscribers e (remove s (w.subscribers e)) }, true)
unfolding unsubscribe_from erase_locator
unsubscribe-done w s e h g = rw (h, g)

-- A subscriber that unsubscribed from an event, in a well-formed store, is not told of it any more,
-- and when it subscribes again it is refused: nothing changes.
pub subscribe_to-unsubscribe_from :
    (w v : Store) (s e : ℕ)
    → Linked w
    → unsubscribe_from w s e ≡ some (v, true)
    → (subscribe_to v s e ≡ (v, false)) × (contains s (broadcast v e) ≡ false)
unfolding broadcast
subscribe_to-unsubscribe_from w v s e l h =
    let q = unsubscribe-left w v s e h in
    rw q.1 (subscribe-old _ s e q.0, not_told w s e (l.distinct e))

drop-first :
    (w : Store) (s e : ℕ) (i : List ℕ)
    → Linked w
    → contains s (w.subscribers e) ≡ true
    → drop_subscribers w e (s ∷ i) ≡ none
unfolding drop_subscribers
drop-first w s e i l h =
    rw (drop_subscribers, unsubscribe-done w s e (l.known s e h) h, not_told w s e (l.distinct e))

subscribed_head : (x : ℕ) (xs : List ℕ) → contains x (x ∷ xs) ≡ true
unfolding contains
subscribed_head x xs = rw (==_refl x)

drop-some :
    (w : Store) (e : ℕ) (i : List ℕ)
    → Linked w
    → w.subscribers e ≡ i
    → i ≢ []
    → drop_subscribers w e i ≡ none
drop-some w e [] l h n = absurd (n refl)
drop-some w e (x ∷ i) l h n = drop-first w x e i l (rw h (subscribed_head x i))

-- In a well-formed store the destructor of an event that has subscribers increments an iterator that
-- it has erased, for which the behaviour is not defined.
pub destroy_event-subscribed :
    (w : Store) (e : ℕ) → Linked w → w.subscribers e ≢ [] → destroy_event w e ≡ none
unfolding destroy_event
destroy_event-subscribed w e l n = drop-some w e (w.subscribers e) l refl n
