-- ===== src/Net/Oop/Header/Tests.antt =====
-- net/oop/Message.cpp: the header of a registration.
use oodles.Prelude.{◌≡◌, false, [], ◌∷◌, arith}
use oodles.Net.Oop.Header.{Header, header2buffer, buffer2header, buffer2header-header2buffer}

abbrev sample : Header
sample = record { body_size = 300; message_id = 10; processed = false }

buffer2header-header2buffer_run :
    buffer2header (header2buffer (0 ∷ 0 ∷ 0 ∷ 0 ∷ 0 ∷ 0 ∷ 9 ∷ []) sample).0
    ≡ (header2buffer (0 ∷ 0 ∷ 0 ∷ 0 ∷ 0 ∷ 0 ∷ 9 ∷ []) sample).1
buffer2header-header2buffer_run =
    buffer2header-header2buffer (0 ∷ 0 ∷ 0 ∷ 0 ∷ 0 ∷ 0 ∷ 9 ∷ []) sample (omega arith) (omega arith)
      (omega arith)
