-- ===== src/Workers/Delivery.antt =====
-- What a worker does with a delivery in the end: Ack and Nack of the package amqp.
use ffgif.World.{Io, Result, ok, err, pure, catch, ◌>>=◌, attempt}

pub data Settlement : Type 0 where
  -- Ack: the message is gone
  acked : Settlement
  -- Nack without requeue: the message goes where the queue sends its dead letters
  dead : Settlement
  -- Nack with requeue: the message stays in its queue
  requeued : Settlement
  -- the call itself has failed: the message stays, and is delivered again
  unsettled : Settlement

abbrev pub settled : Settlement → Result (Unit {0}) → Settlement
settled s (ok _) = s
settled s (err _) = unsettled

-- The call that settles a delivery; an error of it is only logged.
unfoldable pub settle : Settlement → Io Settlement
unfolding attempt
settle s = do r ← catch (attempt (pure tt)); pure (settled s r)
