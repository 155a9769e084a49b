-- ===== src/World/Mails.antt =====
-- The message that a call has put at the end of the queue of mails is determined by the queue.
use ffgif.Base.{◌≡◌, ◌≢◌, List, [], ◌∷◌, ◌++◌, arith}
use ffgif.World.Entities.{EmailMessage}

pub append_last :
    (ms : List EmailMessage) (m n : EmailMessage) → ms ++ m ∷ [] ≡ ms ++ n ∷ [] → m ≡ n
append_last [] m n h = ground arith
append_last (k ∷ ms) m n h = append_last ms m n (ground arith)

pub append-longer : (ms : List EmailMessage) (m : EmailMessage) → ms ≢ ms ++ m ∷ []
append-longer [] m h = ground arith
append-longer (k ∷ ms) m h = append-longer ms m (ground arith)
