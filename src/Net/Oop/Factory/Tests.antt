-- ===== src/Net/Oop/Factory/Tests.antt =====
-- The theorems of Factory.cpp for the messages that Messages.cpp enrolls. A message is its id and
-- the size of its body.
use oodles.Prelude.{ℕ, ◌≡◌, List, [], ◌∷◌, arith}
use oodles.Net.Oop.Factory.{
  made, undefined, empty, enroll_all, create, register_crawler, begin_crawl, end_crawl,
}
use oodles.Net.Oop.Factory.Laws.{create-enroll_all, create-enroll_descending}

abbrev id_of : ℕ × ℕ → ℕ
id_of m = m.0

abbrev with_body : ℕ × ℕ → ℕ → ℕ × ℕ
with_body m size = (m.0, size)

abbrev enrolled : List (ℕ × ℕ)
enrolled = (register_crawler, 0) ∷ (begin_crawl, 0) ∷ (end_crawl, 0) ∷ []

create-enroll_all_example :
    create id_of with_body (enroll_all id_of with_body empty enrolled) begin_crawl 7
    ≡ made (begin_crawl, 7)
create-enroll_all_example =
    create-enroll_all id_of with_body enrolled begin_crawl 7 (omega arith) (omega arith)

create-enroll_descending_example :
    (create id_of with_body
        (enroll_all id_of with_body empty ((end_crawl, 0) ∷ (begin_crawl, 0) ∷ []))
        end_crawl
        7
      ≡ undefined)
    × (create id_of with_body
          (enroll_all id_of with_body empty ((end_crawl, 0) ∷ (begin_crawl, 0) ∷ []))
          begin_crawl
          7
        ≡ made (begin_crawl, 7))
create-enroll_descending_example =
    create-enroll_descending id_of with_body (end_crawl, 0) (begin_crawl, 0) 7 (omega arith)
      (omega arith)
