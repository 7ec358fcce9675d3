-- ===== src/Sched/Crawler/Tests.antt =====
-- sched/Crawler.cpp: three crawlers, one of them offline.
use oodles.Prelude.{suc, ◌%◌, ◌^◌, ◌≡◌, refl, true, false, [], ◌∷◌, none, some, length, arith}
use oodles.Sched.Crawler.{Crawler, assigned, add_url, remove_url, rank}
use oodles.Sched.Crawler.WorkUnit.{Sorted, remove_url-add_url}
use oodles.Sched.Crawler.Rank.{rank_trans, rank-weak}

abbrev busy : Crawler
busy = record { session = some true; cores = 2; name = b'a' ∷ []; work_unit = 16 ∷ 48 ∷ [] }

abbrev idle : Crawler
idle = record busy { work_unit = [] }

abbrev idle_two : Crawler
idle_two = record busy { work_unit = 64 ∷ 80 ∷ [] }

abbrev offline : Crawler
offline = record busy { session = none }

remove_url-add_url_example :
    Sorted (add_url busy 32).0.work_unit
    × ((add_url busy 32).1 ≡ suc (length busy.work_unit) % 2 ^ 16)
    × (remove_url (add_url busy 32).0 32 ≡ some (busy, assigned busy))
remove_url-add_url_example = remove_url-add_url busy 32 (omega arith, (omega arith, tt))

rank_trans_run : (rank offline idle ≡ true) × (rank offline offline ≡ false)
unfolding rank
rank_trans_run = rank_trans offline busy idle refl refl

rank-weak_run : rank idle_two idle ≡ true
unfolding rank
rank-weak_run = rank-weak busy idle_two idle refl refl
