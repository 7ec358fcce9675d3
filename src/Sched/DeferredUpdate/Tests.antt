-- ===== src/Sched/DeferredUpdate/Tests.antt =====
-- sched/DeferredUpdate.cpp: the report of a URL that was crawled already and never scheduled, with
-- natural numbers for the weights.
use oodles.Prelude.{ℕ, ◌+◌, ◌-◌, ◌*◌, ◌/◌, ◌≡◌, refl, true, [], ◌∷◌, ltb, ◌==◌, bytes}
use oodles.Url.Attributes.{Text}
use oodles.Url.Parser.Scan.{Outcome, done, aborted, undefined, exhausted}
use oodles.Url.Parser.Machine.{parse}
use oodles.Url.Parser.Machine.RoundTrip.{no_attributes}
use oodles.Sched.Crawler
use oodles.Sched.Crawler.{Crawler}
use oodles.Sched.Node.{Double}
use oodles.Sched.Session.{Deferable}
use oodles.Sched.Scheduler.{Scheduler}
use oodles.Sched.Scheduler.Updates.{create}
use oodles.Sched.DeferredUpdate.{DeferredUpdate, defer, schedule_url, update}
use oodles.Sched.DeferredUpdate.Unassigned.{update-unassigned}

abbrev naturals : Double ℕ
naturals = record {
  of_nat = λ n. n;
  half = 1;
  add = λ a b. a + b;
  sub = λ a b. a - b;
  mul = λ a b. a * b;
  div = λ a b. a / b;
  less = ltb;
  equal = λ a b. a == b;
  fabs = λ a. a;
  sqrt = λ a. a;
  pow = λ a b. a * a;
}

abbrev idle : Crawler
unfolding Crawler.create
idle = Crawler.create (bytes "c") 1

abbrev unused : Scheduler ℕ ℕ
unfolding idle
unused = create naturals 0 (λ c. idle) (bytes "ROOT")

abbrev url : Text
url = bytes "http://a/b"

abbrev pages_at : ℕ → ℕ
pages_at n = 50 + n

abbrev scheduled_url : Outcome (Scheduler ℕ ℕ × ℕ)
unfolding unused parse
scheduled_url = schedule_url naturals pages_at 9 100 unused 0 (parse url no_attributes)

abbrev result_of : Outcome (Scheduler ℕ ℕ × ℕ) → Scheduler ℕ ℕ × ℕ
unfolding unused
result_of (done r) = r
result_of aborted = (unused, 0)
result_of undefined = (unused, 0)
result_of exhausted = (unused, 0)

abbrev report : Deferable
report = record { key = 16; new_urls = (url, true) ∷ []; scheduled_urls = [] }

abbrev no_updates : DeferredUpdate
no_updates = record {
  updates = [];
  events = record { subscribers = λ e. []; events = λ s. [] };
  posted = [];
}

-- For subscriber 0, at address 7.
abbrev reported : DeferredUpdate
unfolding defer
reported = defer no_updates report 0 7

update-unassigned_example : update naturals pages_at 9 100 unused reported ≡ undefined
unfolding reported defer scheduled_url result_of oodles.Url.Parser.Scan.count_chars
    oodles.Url.Parser.Scan.str2int oodles.Url.Parser.Query.add_query
    oodles.Sched.DeferredUpdate.update_new_urls oodles.Url.Parser.Scan.find_first_of
    oodles.Url.Parser.Tokens.tokenise_scheme oodles.Url.Parser.Scan.find_last_of
    oodles.Url.Parser.Tokens.tokenise_domain oodles.Url.Parser.Tokens.tokenise_path
    oodles.Url.Parser.Normalise.normalise_path oodles.Sched.Scheduler.Updates.schedule_from_crawl
    oodles.Sched.Scheduler.Updates.schedule oodles.Url.TreeIterator.Forward.visit
    oodles.Url.TreeIterator.create oodles.Url.TreeIterator.next oodles.Utility.Tree.insert
    oodles.Utility.Tree.create_child oodles.Utility.IndexedSet.insert
    oodles.Utility.IndexedSet.create oodles.Sched.Scheduler.weigh_tree_branch
    oodles.Sched.Node.calculate_weight
update-unassigned_example =
    update-unassigned naturals pages_at 9 100 0 (result_of scheduled_url).1 unused unused
      (result_of scheduled_url).0 [] [] url reported report 7 [] refl refl refl refl refl
