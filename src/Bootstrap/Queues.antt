-- ===== src/Bootstrap/Queues.antt =====
-- internal/infra/rabbitmq/setup.go: the connection, and the calls by which `Setup` declares the
-- queues of Workers/Topology, each before those that name it.
use ffgif.Base.{Bool, true, none, some, List, [], ◌∷◌, ◌++◌, Text, codes}
use ffgif.Configuration.{RabbitMq, Minio}
use ffgif.Workers.Topology as Topology
use ffgif.Workers.Topology.{QueueDecl}
use ffgif.Bootstrap.Script.{
  Script, pure, or_panic, or_wrapped, ◌>>=◌, ◌>>◌, call, try_call, dial, channel, exchange_declare,
  queue_declare, queue_bind,
}

unfoldable pub dial_url : RabbitMq → Text
dial_url cnf =
    codes "amqp://"
    ++ (cnf.user ++ (codes ":" ++ (cnf.pass ++ (codes "@" ++ (cnf.addr ++ codes "/")))))

unfoldable pub new_rabbit_mq : RabbitMq → Script Bool
unfolding dial_url try_call
new_rabbit_mq cnf = try_call (dial (dial_url cnf)) >>= or_panic

-- The queue that is bound to an exchange has the exchange declared before it.
unfoldable pub declare : QueueDecl → Script Bool
unfolding call
declare q = elim q.bound_to [
  | none ↦ call (queue_declare q)
  | some exchange ↦
      call (exchange_declare exchange)
      >> call (queue_declare q)
      >> call (queue_bind q.name exchange)
]

unfoldable pub declare_all : List QueueDecl → Script Bool
unfolding declare
declare_all [] = pure true
declare_all (q ∷ qs) = declare q >> declare_all qs

unfoldable pub setup : Minio → Script Bool
unfolding try_call declare_all Topology.setup
setup cnf = (try_call channel >>= or_wrapped) >> declare_all (Topology.setup cnf.exchange_queue)
