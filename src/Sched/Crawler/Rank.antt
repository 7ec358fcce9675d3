-- ===== src/Sched/Crawler/Rank.antt =====
-- sched/Crawler.cpp: RankCrawler orders the scheduler's priority queue.
use oodles.Prelude.{
  ℕ, ◌≡◌, refl, sym, ◌∙◌, Bool, true, false, not, ◌&&◌, arith, ltb, ◌==◌, if◌then◌else◌,
}
use oodles.Sched.Crawler.{Crawler, online, assigned, rank}

-- The order by two keys: online or not, and the size of the work unit.
abbrev before : Bool → ℕ → Bool → ℕ → Bool
before x m y n = if x && y then ltb n m else not x && y

rank-before : (a b : Crawler) → rank a b ≡ before (online a) (assigned a) (online b) (assigned b)
unfolding rank
rank-before a b = keys (online a) (online b) (assigned a) (assigned b)
  where
    keys :
        (x y : Bool) (m n : ℕ)
        → (if x && y
            then (if m == n then false else ltb n m)
            else if not x && not y
            then false
            else if not x
            then true
            else false)
          ≡ before x m y n
    keys true true m n = ground arith
    keys true false m n = refl
    keys false true m n = refl
    keys false false m n = refl

before_self : (x : Bool) (m : ℕ) → before x m x m ≡ false
before_self true m = ground arith
before_self false m = refl

before_trans :
    (x y z : Bool) (l m n : ℕ)
    → before x l y m ≡ true
    → before y m z n ≡ true
    → before x l z n ≡ true
before_trans true true true l m n e f = ground arith
before_trans false true true l m n e f = refl
before_trans true false z l m n e f = ground arith
before_trans false false z l m n e f = ground arith
before_trans x true false l m n e f = ground arith

before-weak :
    (x y z : Bool) (l m n : ℕ)
    → before x l z n ≡ true
    → before x l y m ≡ false
    → before y m z n ≡ true
before-weak true true true l m n e f = ground arith
before-weak false false true l m n e f = refl
before-weak true false true l m n e f = refl
before-weak false true true l m n e f = ground arith
before-weak true y false l m n e f = ground arith
before-weak false y false l m n e f = ground arith

-- RankCrawler is transitive, and no crawler ranks before itself.
pub rank_trans :
    (a b c : Crawler) → rank a b ≡ true → rank b c ≡ true → (rank a c ≡ true) × (rank a a ≡ false)
rank_trans a b c e f =
    rw (rank-before a c, rank-before a a)
      (
        before_trans (online a) (online b) (online c) (assigned a) (assigned b) (assigned c)
            (sym (rank-before a b) ∙ e) (sym (rank-before b c) ∙ f),
        before_self (online a) (assigned a),
      )

-- Where one crawler ranks before another, each third that does not rank after the first ranks before
-- the other, so that crawlers that neither ranks before the other form classes.
pub rank-weak : (a b c : Crawler) → rank a c ≡ true → rank a b ≡ false → rank b c ≡ true
rank-weak a b c e f =
    rank-before b c
    ∙ before-weak (online a) (online b) (online c) (assigned a) (assigned b) (assigned c)
        (sym (rank-before a c) ∙ e) (sym (rank-before a b) ∙ f)
