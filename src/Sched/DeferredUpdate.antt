-- ===== src/Sched/DeferredUpdate.antt =====
-- sched/DeferredUpdate.cpp: the updates that sessions hand over, applied later to the scheduler.
-- `at_address` says where `new` puts the page of the n-th URL scheduled. A URL that does not parse
-- throws, which is what the parser comes to here.
use oodles.Prelude.{
  ℕ, ◌+◌, ◌%◌, ◌^◌, Bool, List, [], ◌∷◌, ◌++◌, Option, none, some, if◌then◌else◌, map,
}
use oodles.Url.Attributes.{Attributes, Text}
use oodles.Url.Parser.Scan.{Outcome, done, aborted, undefined, exhausted}
use oodles.Url.Parser.Machine.{parse}
use oodles.Url.Parser.Machine.RoundTrip.{no_attributes}
use oodles.Utility.Events.{Store, put, subscribe_to, destroy_event, broadcast}
use oodles.Sched.Session.{Deferable}
use oodles.Sched.Node.{Double}
use oodles.Sched.Scheduler.{Scheduler}
use oodles.Sched.Scheduler.Updates.{update_node, schedule_from_crawl}
pub mod Publishing
mod Unassigned
mod Tests

-- Each update with the address of its place in the list, which is the event's; the store of events
-- and subscribers; and the receipts that the dispatcher has still to run, a key and a subscriber each.
pub record DeferredUpdate : Type 0 where
  pub updates : List (Deferable × ℕ)
  pub events : Store
  pub posted : List (ℕ × ℕ)

-- The event of a new update has no subscribers.
abbrev pub constructed : Store → ℕ → Store
constructed w e = record w { subscribers = put w.subscribers e [] }

-- defer, of an update that is put at the address `e`.
unfoldable pub defer : DeferredUpdate → Deferable → ℕ → ℕ → DeferredUpdate
unfolding subscribe_to
defer u d s e = record u {
  updates = u.updates ++ (d, e) ∷ [];
  events = (subscribe_to (constructed u.events e) s e).0;
}

-- `m->publish(publisher)`
unfoldable pub publish : DeferredUpdate → Deferable → ℕ → DeferredUpdate
unfolding broadcast
publish u d e = record u { posted = u.posted ++ map (λ r. (d.key, r)) (broadcast u.events e) }

-- What the outer loop of update does to the events: each update in turn is published.
unfoldable pub publish_all : DeferredUpdate → List (Deferable × ℕ) → DeferredUpdate
unfolding publish
publish_all u [] = u
publish_all u ((d, e) ∷ us) = publish_all (publish u d e) us

-- `updates.clear()`, which destroys the events.
unfoldable pub destroy_events : Store → List (Deferable × ℕ) → Outcome Store
unfolding destroy_event
destroy_events w [] = done w
destroy_events w ((d, e) ∷ us) = elim (destroy_event w e) [
  | none ↦ undefined
  | some w' ↦ destroy_events w' us
]

abbrev pub cleared : DeferredUpdate → Outcome Store → Outcome DeferredUpdate
cleared u aborted = aborted
cleared u undefined = undefined
cleared u exhausted = exhausted
cleared u (done w) = done (record u { updates = []; events = w })

unfoldable pub clear : DeferredUpdate → Outcome DeferredUpdate
unfolding destroy_events
clear u = cleared u (destroy_events u.events u.updates)

module _ {ℓ} {R Q : Type ℓ} (real : Double R) (at_address : ℕ → ℕ) where
  abbrev pub schedule_url :
      ℕ → ℕ → Scheduler R Q → ℕ → Outcome Attributes → Outcome (Scheduler R Q × ℕ)
  schedule_url f now s n aborted = aborted
  schedule_url f now s n undefined = undefined
  schedule_url f now s n exhausted = exhausted
  schedule_url f now s n (done a) = schedule_from_crawl real f s a (at_address n) now

  abbrev pub update_new : ℕ → ℕ → Bool → Outcome (Scheduler R Q × ℕ) → Outcome (Scheduler R Q)
  unfolding update_node
  update_new f now crawled aborted = aborted
  update_new f now crawled undefined = undefined
  update_new f now crawled exhausted = exhausted
  update_new f now crawled (done (s, id)) = if crawled then update_node real f s id now else done s

  -- The loop over the new URLs; `n` counts the pages that are made.
  unfoldable pub update_new_urls :
      ℕ → ℕ → Scheduler R Q → ℕ → List (Text × Bool) → Outcome (Scheduler R Q × ℕ)
  update_new_urls f now s n [] = done (s, n)
  update_new_urls f now s n ((url, crawled) ∷ us) =
      elim (update_new f now crawled (schedule_url f now s n (parse url no_attributes))) [
        | aborted ↦ aborted
        | undefined ↦ undefined
        | exhausted ↦ exhausted
        | done s' ↦ update_new_urls f now s' (n + 1) us
      ]

  -- The loop over the scheduled URLs, and `x`.
  unfoldable pub update_scheduled_urls :
      ℕ → ℕ → Scheduler R Q → ℕ → List (ℕ × Bool) → Outcome (Scheduler R Q × ℕ)
  update_scheduled_urls f now s x [] = done (s, x)
  update_scheduled_urls f now s x ((id, crawled) ∷ us) = elim (update_node real f s id now) [
    | aborted ↦ aborted
    | undefined ↦ undefined
    | exhausted ↦ exhausted
    | done s' ↦ update_scheduled_urls f now s' ((x + 1) % 2 ^ 32) us
  ]

  abbrev pub with_count : ℕ → Outcome (Scheduler R Q × ℕ) → Outcome (Scheduler R Q × ℕ × ℕ)
  with_count n aborted = aborted
  with_count n undefined = undefined
  with_count n exhausted = exhausted
  with_count n (done (s, x)) = done (s, n, x)

  abbrev pub update_scheduled :
      ℕ → ℕ → ℕ → Deferable → Outcome (Scheduler R Q × ℕ) → Outcome (Scheduler R Q × ℕ × ℕ)
  unfolding update_scheduled_urls
  update_scheduled f now x d aborted = aborted
  update_scheduled f now x d undefined = undefined
  update_scheduled f now x d exhausted = exhausted
  update_scheduled f now x d (done (s, n)) =
      with_count n (update_scheduled_urls f now s x d.scheduled_urls)

  -- The outer loop over the updates that are left, each of which is published when it is done.
  unfoldable pub update_all :
      ℕ
      → ℕ
      → Scheduler R Q
      → ℕ
      → ℕ
      → List (Deferable × ℕ)
      → DeferredUpdate
      → Outcome (Scheduler R Q × ℕ × DeferredUpdate)
  unfolding update_new_urls parse publish
  update_all f now s n x [] u = done (s, x, u)
  update_all f now s n x ((d, e) ∷ ds) u =
      elim (update_scheduled f now x d (update_new_urls f now s n d.new_urls)) [
        | aborted ↦ aborted
        | undefined ↦ undefined
        | exhausted ↦ exhausted
        | done (s', n', x') ↦ update_all f now s' n' x' ds (publish u d e)
      ]

  abbrev pub with_update :
      Scheduler R Q → ℕ → Outcome DeferredUpdate → Outcome (Scheduler R Q × ℕ × DeferredUpdate)
  with_update s x aborted = aborted
  with_update s x undefined = undefined
  with_update s x exhausted = exhausted
  with_update s x (done u) = done (s, x, u)

  abbrev pub finish :
      Outcome (Scheduler R Q × ℕ × DeferredUpdate) → Outcome (Scheduler R Q × ℕ × DeferredUpdate)
  unfolding clear
  finish aborted = aborted
  finish undefined = undefined
  finish exhausted = exhausted
  finish (done (s, x, u)) = with_update s x (clear u)

  -- update: the scheduler, what it returns and what is left.
  unfoldable pub update :
      ℕ → ℕ → Scheduler R Q → DeferredUpdate → Outcome (Scheduler R Q × ℕ × DeferredUpdate)
  unfolding update_all
  update f now s u = finish (update_all f now s 0 0 u.updates u)

  -- Scheduler::update_schedule, which asserts that there are deferred updates.
  unfoldable pub update_schedule :
      ℕ → ℕ → Scheduler R Q → Option DeferredUpdate → Outcome (Scheduler R Q × ℕ × DeferredUpdate)
  unfolding update
  update_schedule f now s none = aborted
  update_schedule f now s (some u) = update f now s u

-- Scheduler::defer_update
abbrev pub defer_update : Option DeferredUpdate → Deferable → ℕ → ℕ → Option DeferredUpdate
unfolding defer
defer_update none d s e = none
defer_update (some u) d s e = some (defer u d s e)
