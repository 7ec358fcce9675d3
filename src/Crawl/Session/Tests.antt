-- ===== src/Crawl/Session/Tests.antt =====
-- crawl/Session.cpp: a crawler that has registered.
use oodles.Prelude.{◌≡◌, refl, [], ◌∷◌}
use oodles.Net.Oop.Factory.{begin_crawl, register_crawler}
use oodles.Net.Oop.Messages.{begin_crawl_message}
use oodles.Crawl.Session.{Session, create, welcome, continue_dialog, handled, out_of_fuel}
use oodles.Crawl.Session.Fetching.{continue_dialog-begin}

abbrev waiting : Session
waiting = record create { outbound = register_crawler }

continue_dialog-begin_example :
    (continue_dialog 5 waiting (begin_crawl_message (record { urls = [] }))
      ≡ handled (record waiting { inbound = begin_crawl }))
    × (continue_dialog 4 waiting (begin_crawl_message (record { urls = 7 ∷ [] })) ≡ out_of_fuel)
unfolding welcome
continue_dialog-begin_example = continue_dialog-begin 4 waiting 7 [] refl
