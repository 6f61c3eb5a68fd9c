-- ===== src/System/Taken.antt =====
-- A new message, in any state that the program comes to.
use mathlib.Core.Logic.{if_pos}
use pipelinerunner.Base.{
  ℕ, ◌≡◌, refl, ap, sym, ◌∙◌, [], ◌∷◌, ◌++◌, some, insert, lookup-insert_same, nat_eq, string_eq,
}
use pipelinerunner.Toolkit.Value.{Fields}
use pipelinerunner.Qt.{Qt}
use pipelinerunner.Common.Message.{Message, message_info}
use pipelinerunner.Common.Message.RoundTrip.{message_info-read}
use pipelinerunner.Rabbit.Channel.{Bytes, Amqp}
use pipelinerunner.Rabbit.Connection.Outside.{Env}
use pipelinerunner.RabbitPlugin.{RabbitService, RabbitClient}
use pipelinerunner.Converter.Outside.{Desktop}
use pipelinerunner.Converter.{Converter}
use pipelinerunner.Converter.Steps.{message_at}
use pipelinerunner.Converter.History.{submit, message_at-submit}
use pipelinerunner.System.Starting.{IsNew, new_message_is_queued}
use pipelinerunner.System.Events.{Reach, emitted, perform, arrives, with_client}
use pipelinerunner.System.Sound.{Prog, IsSound}
use pipelinerunner.System.Sound.Kept.{job_in, tag_in}
use pipelinerunner.System.Sound.Slots.{dispatch-received}
use pipelinerunner.System.Sound.Called.{listener_there}
use pipelinerunner.System.Sound.Arrived.{perform_here, holding}
use pipelinerunner.System.Sound.Invariant.{Reach-IsSound}

module _ (qt : Qt) (env : Env) (amqp : Amqp) (desktop : Desktop) (new_uuid : ℕ → qt.Uuid) where
  abbrev P : Type 0
  P = Prog qt env amqp desktop new_uuid

  -- The message is in work, under the next handle of the converter, which has it at the end of its queue.
  pub record IsTaken (t : P) (c : Converter qt desktop) (m : Message qt) (tag : ℕ) : Type 0 where
    pub conv : Converter qt desktop
    pub converts : t.world.converter ≡ some conv
    pub queued : conv.received_messages ≡ c.received_messages ++ c.next_handle ∷ []
    pub there : message_at qt desktop conv c.next_handle ≡ some m
    pub job : job_in qt env amqp desktop new_uuid t m.message_id ≡ some c.next_handle
    pub tagged : tag_in qt env amqp desktop new_uuid t m.message_id ≡ some tag

  -- In any state that the program comes to from one with the invariant: a delivery at the listener of the
  -- queue of jobs, whose body can be parsed and is a message that is new to the runner. All slots return, and
  -- then the message is in work, with the tag of the delivery, and at the end of the converter's queue.
  pub new_message-IsTaken :
      (s t : P) (r : RabbitService qt env amqp) (cl : RabbitClient qt env amqp)
      (c : Converter qt desktop) (body : Bytes) (priority tag : ℕ) (obj : Fields qt.Double)
      (m : Message qt)
      → IsSound qt env amqp desktop new_uuid s
      → Reach qt env amqp desktop new_uuid s t
      → t.world.rabbit ≡ some r
      → r.client ≡ some cl
      → qt.parse_object body ≡ some obj
      → IsNew qt env amqp desktop new_uuid t c (message_info qt obj tag priority) m
      → (t' : P) × (emitted qt env amqp desktop new_uuid t r (
            perform qt env amqp desktop new_uuid cl t.world.broker
              (arrives r.config.sub_queue_name body priority tag))
          ≡ some t')
        × IsTaken t' c m tag
  unfolding emitted message_info
  new_message-IsTaken s t r cl c body priority tag obj m sound reach rabbit client parsed new =
      let sub = r.config.sub_queue_name in
      let b = t.world.broker in
      let (l, v) = Reach-IsSound qt env amqp desktop new_uuid s t sound reach in
      let found = listener_there qt env amqp desktop new_uuid t l r cl v rabbit client in
      let cl' : RabbitClient qt env amqp = record cl {
        listeners =
            insert sub (holding qt env amqp desktop new_uuid l body priority tag) cl.listeners;
      } in
      let x = with_client qt env amqp desktop new_uuid t r cl' b in
      let (run, queue, _) =
        new_message_is_queued qt env amqp desktop new_uuid x c body priority tag obj m parsed
          (record {
            named = new.named;
            unknown = new.unknown;
            converts = new.converts;
            read = new.read;
          }) in
      let same : m.message_id ≡ (message_info qt obj tag priority).id =
        sym (message_info-read qt obj tag priority m new.read) in
      (
        _,
        ap (emitted qt env amqp desktop new_uuid t r) (
              perform_here qt env amqp desktop new_uuid cl b l sub body priority tag found v.manual)
            ∙ dispatch-received qt env amqp desktop new_uuid sub x body priority tag
            ∙ run,
        record {
          conv = submit qt desktop c m;
          converts = refl;
          queued = queue;
          there =
              rw
                (
                  message_at-submit qt desktop c m c.next_handle,
                  if_pos (nat_eq.dec c.next_handle c.next_handle) refl,
                )
                refl;
          job = lookup-insert_same ⦃e = qt.uuid_eq⦄ m.message_id _ c.next_handle t.jobs same;
          tagged = lookup-insert_same ⦃e = qt.uuid_eq⦄ m.message_id _ tag t.jobs_delivery_tags same;
        },
      )
