-- ===== src/Sched/Session/Steps.antt =====
-- sched/Session.cpp and DeferredUpdate.cpp: the steps of a session, of the updates that are deferred
-- for it and of the dispatcher that runs the receipts.
use oodles.Prelude.{ℕ, ◌≡◌, ◌≢◌, Bool, true, false, List, [], ◌∷◌, ◌++◌, some, length, drop}
use oodles.Net.Oop.Messages.{Message}
use oodles.Url.Parser.Scan.{done}
use oodles.Utility.Events.{contains}
use oodles.Sched.Session.{Session, Deferable, create, receive, handle_message, send}
use oodles.Sched.Session.Counts.{times, keys}
use oodles.Sched.DeferredUpdate.{DeferredUpdate, defer, publish_all, clear}
use oodles.Sched.DeferredUpdate.Publishing.{addresses}

-- The garbage collector, as a subscriber.
abbrev pub collector : ℕ
collector = 0

-- A session, the updates that were deferred for it, whether they are published and not yet cleared,
-- and the addresses of the messages that the session was handed.
pub record State : Type 0 where
  pub session : Session
  pub deferred : DeferredUpdate
  pub published : Bool
  pub taken : List ℕ

abbrev pub nothing_deferred : DeferredUpdate
nothing_deferred = record {
  updates = [];
  events = record { subscribers = λ e. []; events = λ s. [] };
  posted = [];
}

abbrev pub fresh_state : State
fresh_state = record {
  session = create;
  deferred = nothing_deferred;
  published = false;
  taken = [];
}

-- The call of defer_update for the update that a handler asked for, if any, at the address `e`.
unfoldable pub defer_first : DeferredUpdate → List Deferable → ℕ → DeferredUpdate
unfolding defer
defer_first u [] e = u
defer_first u (d ∷ ds) e = defer u d collector e

abbrev pub handled : State → ℕ → Message → ℕ → State
handled s a m e =
    let t = (handle_message s.session a m).0 in
    record s {
      session = t;
      deferred = defer_first s.deferred (drop (length s.session.updates) t.updates) e;
      taken = a ∷ s.taken;
    }

-- A message handed over has an address that is not 0 and that no message kept has; an update has one
-- that no other update has. While update runs nothing is deferred, but the dispatcher's other threads
-- run receipts, in any order, as soon as they are posted. Of update, the work on the tree is left out,
-- and so are the updates of other sessions.
pub data Step : State → State → Type 0 where
  handles :
      (s : State) (a : ℕ) (m : Message) (e : ℕ)
      → a ≢ 0
      → times a (keys s.session.garbage) ≡ 0
      → contains e (addresses s.deferred.updates) ≡ false
      → s.published ≡ false
      → Step s (handled s a m e)
  sends : (s : State) (m : Message) → Step s (record s { session = send s.session m })
  publishes :
      (s : State)
      → s.published ≡ false
      → Step s (record s { deferred = publish_all s.deferred s.deferred.updates; published = true })
  receives :
      (s : State) (t : Session) (k : ℕ) (xs ys : List (ℕ × ℕ))
      → s.deferred.posted ≡ xs ++ (k, collector) ∷ ys
      → receive s.session k ≡ some t
      → Step s (record s { session = t; deferred = record s.deferred { posted = xs ++ ys } })
  clears :
      (s : State) (u : DeferredUpdate)
      → s.published ≡ true
      → clear s.deferred ≡ done u
      → Step s (record s { deferred = u; published = false })

pub data Reach : State → Type 0 where
  start : Reach fresh_state
  step : (s t : State) → Reach s → Step s t → Reach t
