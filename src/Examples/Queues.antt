-- ===== src/Examples/Queues.antt =====
-- The theorems on listeners, senders and the client at a small broker, which counts what it is told.
use pipelinerunner.Base.{
  ℕ, ◌+◌, ◌*◌, ◌≤◌, ◌≡◌, refl, ◌⊎◌, inl, true, false, List, [], ◌∷◌, some, none, String, nat_eq,
  ◌≢◌, ℕ_discrete, string_eq, lookup, each, arith, ◌=ℕ=◌, if◌then◌else◌,
}
use pipelinerunner.Rabbit.Channel.{Amqp, to_strong_ref}
use pipelinerunner.Rabbit.Listener.{QueueListener, CachedMessage, confirm_receiving}
use pipelinerunner.Rabbit.Listener
use pipelinerunner.Rabbit.Listener.Confirm.{MayConfirm, MayConfirm-of_confirm}
use pipelinerunner.Rabbit.Listener.History
use pipelinerunner.Rabbit.Listener.History.{CountsAcks, acked_le_delivered, count, deliveries, held}
use pipelinerunner.Rabbit.Sender.{QueueSender, publish, envelope}
use pipelinerunner.Rabbit.Sender.Publish.{publish_cases, envelope_exact}
use pipelinerunner.Rabbit.Client.{
  Client, ConnectionInfoStruct, create, start, close_old, handle_connection_changed,
}
use pipelinerunner.Rabbit.Client.Channels.{ClientIsFiled}
use pipelinerunner.Rabbit.Client.Runs.{run-create-IsFiled}
use pipelinerunner.Rabbit.Client.Runs
use pipelinerunner.Rabbit.Client.Stale.{stale_tags}
use pipelinerunner.RabbitPlugin.{RabbitService}
use pipelinerunner.Examples.SampleQt.{sample_qt}
use pipelinerunner.Examples.SampleSocket.{sample_env, six_waiting}

abbrev pub sample_amqp : Amqp
sample_amqp = record {
  World = ℕ;
  is_alive = λ w c. true;
  ack = λ w c tag. (true, w + 1);
  publish = λ w c queue e. (true, w + 1);
  set_qos = λ w c n. w + 1;
  declare_queue = λ w c name durable priority. w + 1;
  consume = λ w c name. w + 1;
  close_connection = λ w c. w + 1;
  new_connection = λ w login password. (w, w + 1);
  new_channel = λ w c. (w, w + 1);
}

-- A listener that holds the message with the tag 5.
abbrev pub sample_listener : QueueListener
sample_listener = record {
  queue_name = "in";
  is_auto_acknowledge = false;
  is_ready = true;
  channel = some 2;
  messages = (5, record { message = 1 ∷ []; priority = 0 }) ∷ [];
}

abbrev sample_calls : List History.Call
sample_calls =
    History.delivers (7 ∷ []) 1 6
    ∷ History.confirms 6
    ∷ History.confirms 6
    ∷ History.turns false
    ∷ []

-- A broker that keeps the tags it is told.
abbrev tag_amqp : Amqp
tag_amqp = record {
  World = List ℕ;
  is_alive = λ w c. true;
  ack = λ w c tag. (true, tag ∷ w);
  publish = λ w c queue e. (true, w);
  set_qos = λ w c n. w;
  declare_queue = λ w c name durable priority. w;
  consume = λ w c name. w;
  close_connection = λ w c. w;
  new_connection = λ w login password. (0, w);
  new_channel = λ w c. (0, w);
}

abbrev tag_acks : CountsAcks tag_amqp
tag_acks = record { sent = λ w tag. count tag w; sent-ack = λ w c t tag. refl }

acked_le_delivered_example :
    (count 6 (History.run tag_amqp sample_listener [] sample_calls).2
      ≡ count 6 (History.run tag_amqp sample_listener [] sample_calls).1 + 0)
    × (count 6 (History.run tag_amqp sample_listener [] sample_calls).2
          + held 6 (History.run tag_amqp sample_listener [] sample_calls).0
        ≤ 0 + (deliveries 6 sample_calls + held 6 sample_listener))
acked_le_delivered_example =
    acked_le_delivered tag_amqp tag_acks sample_calls sample_listener [] 6 refl

holds_five : lookup 5 sample_listener.messages ≢ none
unfolding lookup ℕ_discrete
holds_five = λ e. cc

MayConfirm-of_confirm_example : (c : ℕ) × MayConfirm sample_amqp sample_listener 0 5 c
unfolding confirm_receiving lookup ℕ_discrete
MayConfirm-of_confirm_example = MayConfirm-of_confirm sample_amqp sample_listener 0 5 refl

abbrev pub sample_sender : QueueSender
sample_sender = record { queue_name = "out"; is_durable = true; is_ready = true; channel = some 2 }

publish_cases_example :
    ((sample_sender.is_ready ≡ true)
      × ((c : ℕ) × (to_strong_ref sample_amqp 0 sample_sender.channel ≡ some c)
          × (publish sample_amqp sample_sender 0 (7 ∷ []) 60 1 true
              ≡ sample_amqp.publish 0 c sample_sender.queue_name (envelope (7 ∷ []) 60 1 true))))
    ⊎ (((sample_sender.is_ready ≡ false)
          ⊎ (to_strong_ref sample_amqp 0 sample_sender.channel ≡ none))
        × (publish sample_amqp sample_sender 0 (7 ∷ []) 60 1 true ≡ (false, 0)))
publish_cases_example = publish_cases sample_amqp sample_sender 0 (7 ∷ []) 60 1 true

envelope_exact_example :
    ((envelope (7 ∷ 8 ∷ []) 60 1 true).body ≡ 7 ∷ 8 ∷ [])
    × ((envelope (7 ∷ 8 ∷ []) 60 1 true).expiration ≡ (if 60 =ℕ= 0 then none else some (60 * 1000)))
envelope_exact_example =
    envelope_exact (7 ∷ 8 ∷ []) 60 1 true
      (λ e. absurd (omega arith), (λ e. absurd (omega arith), tt)) (omega arith)

abbrev pub sample_info : ConnectionInfoStruct String
sample_info = record { address = "127.0.0.1"; port = 5672; login = "guest"; password = "guest" }

abbrev client_calls : List (Runs.Call String sample_env sample_amqp)
client_calls =
    Runs.starts six_waiting
    ∷ Runs.connection_changes true
    ∷ Runs.creates_listener "in" false
    ∷ Runs.creates_sender "out" true
    ∷ Runs.connection_changes true
    ∷ []

run-create-IsFiled_example :
    ClientIsFiled
      (Runs.run String sample_env sample_amqp
        (create String sample_env sample_amqp sample_info)
        0
        client_calls).0
run-create-IsFiled_example =
    run-create-IsFiled String sample_env sample_amqp sample_info 0 client_calls

abbrev pub sample_client : Client String sample_env sample_amqp
sample_client = record {
  server_info = sample_info;
  senders = [];
  listeners = ("in", sample_listener) ∷ [];
  handler = none;
  connection = some 1;
  channel = some 2;
}

abbrev reset_sample : QueueListener
reset_sample = record sample_listener { is_ready = false; messages = []; channel = some 2 }

stale_tags_example :
    (reset_sample.messages ≡ [])
    × (confirm_receiving sample_amqp reset_sample 9 5 ≡ (reset_sample, false, 9))
unfolding handle_connection_changed close_old each Listener.reset_channel Listener.set_is_ready
    lookup string_eq
stale_tags_example =
    stale_tags String sample_env sample_amqp sample_client 0 "in" reset_sample 9 5 (inl refl)

abbrev pub started_client : Client String sample_env sample_amqp
started_client = start String sample_env sample_amqp sample_client six_waiting

abbrev pub sample_service : RabbitService sample_qt sample_env sample_amqp
sample_service = record {
  client = some started_client;
  config = record {
    rabbit_host = "127.0.0.1";
    rabbit_port = 5672;
    rabbit_login = "guest";
    rabbit_password = "guest";
    sub_queue_name = "in";
    pub_queue_name = "out";
    converter_path = "convert.py";
    data_storage = "data";
  };
}
