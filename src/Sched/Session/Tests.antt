-- ===== src/Sched/Session/Tests.antt =====
-- sched/Session.cpp: a session that was handed a registration and the end of a crawl, whose update was
-- deferred and then published.
use oodles.Prelude.{◌+◌, ◌≤◌, ◌≡◌, ◌≢◌, refl, true, false, [], ◌∷◌, none, arith}
use oodles.Net.Oop.Messages.{Message, register_crawler_message, end_crawl_message}
use oodles.Url.Parser.Scan.{done, undefined}
use oodles.Utility.Events.{contains}
use oodles.Sched.Session.{Deferable, handle_message, receive}
use oodles.Sched.Session.Counts.{times, keys}
use oodles.Sched.Session.Steps.{
  State, fresh_state, nothing_deferred, defer_first, handled, Reach, start, step, handles,
  publishes,
}
use oodles.Sched.Session.Garbage.{Reach-receives, Reach-accounted, Reach-update}
use oodles.Sched.Crawler
use oodles.Sched.Crawler.{Crawler}
use oodles.Sched.Node.{Double}
use oodles.Sched.Scheduler.{Scheduler}
use oodles.Sched.Scheduler.Updates
use oodles.Sched.DeferredUpdate
use oodles.Sched.DeferredUpdate.{publish_all, clear}

abbrev greeting : Message
greeting = register_crawler_message (record { cores = 2; name = b'a' ∷ [] })

abbrev report : Message
report = end_crawl_message (record { new_urls = []; scheduled_urls = (5, true) ∷ [] })

abbrev update : Deferable
update = record { key = 16; new_urls = []; scheduled_urls = (5, true) ∷ [] }

abbrev registered_state : State
registered_state = handled fresh_state 8 greeting 3

-- The update is at the address 7.
abbrev reported_state : State
reported_state = handled registered_state 16 report 7

abbrev published_state : State
published_state = record reported_state {
  deferred = publish_all reported_state.deferred reported_state.deferred.updates;
  published = true;
}

reported_state-Reach : Reach reported_state
unfolding defer_first handle_message contains
reported_state-Reach =
    step registered_state reported_state
      (step fresh_state registered_state start
        (handles fresh_state 8 greeting 3 (λ e. omega arith) refl refl refl))
      (handles registered_state 16 report 7 (λ e. omega arith) refl refl refl)

published_state-Reach : Reach published_state
unfolding defer_first handle_message
published_state-Reach =
    step reported_state published_state reported_state-Reach (publishes reported_state refl)

Reach-receives_example : receive published_state.session 16 ≢ none
unfolding defer_first handle_message publish_all contains
Reach-receives_example = Reach-receives published_state 16 [] [] published_state-Reach refl

Reach-accounted_example :
    (times 16 published_state.taken
      ≡ times 16 published_state.session.deleted + times 16 (keys published_state.session.garbage))
    × (times 16 (keys published_state.session.garbage) ≤ 1)
Reach-accounted_example = Reach-accounted published_state 16 published_state-Reach

-- A real number is of no matter here.
abbrev unreal : Double (Unit {0})
unreal = record {
  of_nat = λ n. tt;
  half = tt;
  add = λ a b. tt;
  sub = λ a b. tt;
  mul = λ a b. tt;
  div = λ a b. tt;
  less = λ a b. false;
  equal = λ a b. true;
  fabs = λ a. tt;
  sqrt = λ a. tt;
  pow = λ a b. tt;
}

abbrev idle : Crawler
unfolding Crawler.create
idle = Crawler.create (b'c' ∷ []) 1

abbrev unused : Scheduler (Unit {0}) (Unit {0})
unfolding idle
unused = Updates.create unreal tt (λ c. idle) (b'R' ∷ [])

Reach-update_example :
    (clear published_state.deferred ≡ undefined)
    × (DeferredUpdate.update unreal (λ n. n) 9 100 unused published_state.deferred
        ≢ done (unused, 1, nothing_deferred))
unfolding defer_first handle_message publish_all
Reach-update_example =
    Reach-update unreal (λ n. n) 9 100 unused (unused, 1, nothing_deferred) published_state update 7
      [] published_state-Reach refl
