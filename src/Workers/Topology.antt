-- ===== src/Workers/Topology.antt =====
-- internal/infra/rabbitmq/setup.go: the queues that `Setup` declares, in its order, as data.
use ffgif.Base.{
  ℕ, ◌≡◌, refl, Bool, true, Option, none, some, List, [], ◌∷◌, ◌++◌, All, Text, codes, text_eq, any,
}

abbrev pub email_queue : Text
email_queue = codes "email.queue"

abbrev pub process_queue : Text
process_queue = codes "process.queue"

abbrev pub save_queue : Text
save_queue = codes "video.save.queue"

abbrev pub save_retry_queue : Text
save_retry_queue = codes "save.retry.queue"

abbrev pub upload_process_queue : Text
upload_process_queue = codes "process.upload.queue"

-- A queue, which is durable: where its dead letters go by the default exchange, after how many
-- milliseconds a message dies, and the exchange that it is bound to.
pub record QueueDecl : Type 0 where
  pub name : Text
  pub dead_letter_routing_key : Option Text
  pub message_ttl : Option ℕ
  pub bound_to : Option Text

abbrev pub get_dead_queue : Text → Text
get_dead_queue queue = queue ++ codes ".dead"

abbrev plain : Text → QueueDecl
plain name = record {
  name = name;
  dead_letter_routing_key = none;
  message_ttl = none;
  bound_to = none;
}

abbrev with_dead : Text → QueueDecl
with_dead name = record (plain name) { dead_letter_routing_key = some (get_dead_queue name) }

unfoldable pub declare_email_queue : QueueDecl
declare_email_queue = with_dead email_queue

unfoldable pub declare_email_queue_dead : QueueDecl
declare_email_queue_dead = plain (get_dead_queue email_queue)

unfoldable pub declare_process_queue : QueueDecl
declare_process_queue = with_dead process_queue

unfoldable pub declare_process_queue_dead : QueueDecl
declare_process_queue_dead = plain (get_dead_queue process_queue)

unfoldable pub declare_save_queue : QueueDecl
declare_save_queue = with_dead save_queue

unfoldable pub declare_save_queue_dead : QueueDecl
declare_save_queue_dead = plain (get_dead_queue save_queue)

-- A message waits for a second, and goes back to the queue of saves.
unfoldable pub declare_save_retry_queue : QueueDecl
declare_save_retry_queue = record (plain save_retry_queue) {
  message_ttl = some 1000;
  dead_letter_routing_key = some save_queue;
}

unfoldable pub declare_save_retry_queue_dead : QueueDecl
declare_save_retry_queue_dead = plain (get_dead_queue save_retry_queue)

unfoldable pub declare_upload_process_queue : Text → QueueDecl
declare_upload_process_queue exchange = record (with_dead upload_process_queue) {
  bound_to = some exchange;
}

unfoldable pub declare_upload_process_queue_dead : QueueDecl
declare_upload_process_queue_dead = plain (get_dead_queue upload_process_queue)

-- `Setup`, for the exchange that MinIO notifies.
unfoldable pub setup : Text → List QueueDecl
unfolding declare_email_queue declare_email_queue_dead declare_process_queue
    declare_process_queue_dead declare_save_queue declare_save_queue_dead declare_save_retry_queue
    declare_save_retry_queue_dead declare_upload_process_queue declare_upload_process_queue_dead
setup exchange =
    declare_email_queue_dead
    ∷ declare_email_queue
    ∷ declare_process_queue_dead
    ∷ declare_process_queue
    ∷ declare_save_queue_dead
    ∷ declare_save_queue
    ∷ declare_save_retry_queue_dead
    ∷ declare_save_retry_queue
    ∷ declare_upload_process_queue_dead
    ∷ declare_upload_process_queue exchange
    ∷ []

abbrev has_name : Text → QueueDecl → Bool
has_name name q = text_eq q.name name

abbrev pub HasTarget : List QueueDecl → QueueDecl → Type 0
HasTarget qs q = elim q.dead_letter_routing_key [
  | none ↦ Unit {0}
  | some key ↦ any (has_name key) qs ≡ true
]

-- Every queue to which `Setup` lets dead letters go is one that it declares.
setup-HasTarget : (exchange : Text) → All (HasTarget (setup exchange)) (setup exchange)
unfolding setup any text_eq
setup-HasTarget exchange = (tt, (refl, (tt, (refl, (tt, (refl, (tt, (refl, (tt, (refl, tt))))))))))
