-- ===== src/Outbox/Kafka.antt =====
-- The producer and the client that hand a message to Kafka: app/internal/tasks/event/kafka/producer.go
-- and app/pkg/client/kafka/client.go. The writer of the Kafka library is asynchronous: a call that
-- returns no error has put the message into the writer's buffer, and whether Kafka gets it is decided
-- later and told to nobody. So the state has what was put into the buffer, and nothing is said of what
-- arrives. The text of the library's error, and `json.Marshal`, which does not fail for a payload, are
-- left out.
use tasks_service.Prelude.{
  ℕ, suc, Bool, String, Option, none, some, List, [], ◌∷◌, ◌++◌, if◌then◌else◌,
}
use mathlib.Core.Option
use tasks_service.Tasks.Domain.{Task}
use tasks_service.Outbox.Payload.{TaskPayload}

-- kafkaPayload with its key. `event` is the id of the event that it comes from, which the message
-- itself does not carry.
pub record Message : Type 0 where
  pub event : String
  pub key : String
  pub task : TaskPayload
  pub event_type : String
  pub timestamp : ℕ

-- `queued` is what the asynchronous writer has accepted; the counters are those of the statistics.
pub record Client : Type 0 where
  pub queued : List Message
  pub message_count : ℕ
  pub error_count : ℕ

-- The task of the message that the producer builds.
abbrev pub produced_task : Task → TaskPayload
produced_task t = record {
  id = t.id;
  title = t.title;
  description = t.description;
  priority = t.priority;
  status = t.status;
  due_date = t.due_date;
  user_id = t.user_id;
  tag_id = t.tag_id;
  tag_name = t.tag_name;
  created_at = t.created_at;
}

-- `accepts n` says whether the n-th call of WriteMessages returns no error.
module _ (accepts : ℕ → Bool) where
  -- Write of the client: the error, or none.
  abbrev pub client_write : Message → Client → Option String × Client
  client_write m c =
      if accepts c.message_count
      then (none, record c { queued = c.queued ++ m ∷ []; message_count = suc c.message_count })
      else (
        some "immediate write error",
        record c { message_count = suc c.message_count; error_count = suc c.error_count },
      )

  -- Write of the producer, for the event with the given id.
  abbrev pub producer_write : String → ℕ → Task → String → Client → Option String × Client
  producer_write event now t event_type c =
      let (failure, after) =
        client_write
          (record {
            event = event;
            key = t.id;
            task = produced_task t;
            event_type = event_type;
            timestamp = now;
          })
          c in
      (Option.map (λ _. "kafka write") failure, after)
