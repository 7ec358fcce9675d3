-- ===== src/Net/Http/ResponseCodes/Tests.antt =====
-- ResponseCodes.cpp at concrete codes.
use oodles.Prelude.{◌≡◌, refl, some, arith}
use oodles.Utility.BitSet.Registry.{entry_of}
use oodles.Net.Http.ResponseCodes.{ResponseCodes, phrases, at, create}
use oodles.Net.Http.ResponseCodes.Laws.{expected, at-create}

not_found : entry_of phrases 404 ≡ some "Not Found"
not_found = refl

at-create_run :
    (r : ResponseCodes) × (create ≡ some r) × (at r 404 ≡ expected (entry_of phrases 404))
at-create_run = at-create 404 (omega arith)
